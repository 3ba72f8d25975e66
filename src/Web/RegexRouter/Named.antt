-- ===== src/Web/RegexRouter/Named.antt =====
-- The paths of the nodes of web/homework1/route.go: only the node of a wildcard is called "*".
use go_study.Prelude.{
  false, Option, none, some, [], ◌≡◌, inl, inr, subst, arith, Result, ok, err, Bytes, beq,
  Bool-cases, Option-cases,
}
use go_study.Web.Router.{is_param, star_path, tail_bytes}
use go_study.Web.RegexRouter.{
  Panic, NodeType, reg_node, param_node, any_node, is_any, Node, node, Children, nil, cons, Branch,
  absent, present, Slot, star, param, reg, static, info, get_child, put_child, set_slot, or_create,
  or_static, create_star, create_reg, create_param, create_static, star_refusal, reg_refusal,
  param_refusal, differs,
}
use go_study.Web.RegexRouter.Nodes.{create_by}
use go_study.Web.RegexRouter.Shape.{type_at, pair_of}

-- A tree whose nodes are called "*" exactly if they are of that type.
unfoldable mutual
  pub IsNamed : {H R : Type 0} → Node H R → Type 0
  IsNamed (node i c s p r) =
      (beq i.path star_path ≡ is_any i.typ)
      × AllNamed c
      × BranchIsNamed s
      × BranchIsNamed p
      × BranchIsNamed r

  pub AllNamed : {H R : Type 0} → Children H R → Type 0
  AllNamed nil = Unit
  AllNamed (cons k n c) = IsNamed n × AllNamed c

  pub BranchIsNamed : {H R : Type 0} → Branch H R → Type 0
  BranchIsNamed absent = Unit
  BranchIsNamed (present n) = IsNamed n

module _ {H R : Type 0} where
  pub name_type : (n : Node H R) → IsNamed n → beq (info n).path star_path ≡ is_any (info n).typ
  unfolding IsNamed
  name_type (node i c s p r) h = h.0

  get_child-IsNamed :
      (k : Bytes) (c : Children H R) (n : Node H R)
      → AllNamed c
      → get_child k c ≡ some n
      → IsNamed n
  unfolding IsNamed get_child
  get_child-IsNamed k nil n h e = cc
  get_child-IsNamed k (cons j m c) n (h, hs) e = elim (Bool-cases (beq j k)) [
    | inl same ↦ subst IsNamed (ground arith) h
    | inr other ↦ get_child-IsNamed k c n hs (ground arith)
  ]

  put_child-AllNamed :
      (k : Bytes) (v : Node H R) (c : Children H R)
      → IsNamed v
      → AllNamed c
      → AllNamed (put_child k v c)
  unfolding IsNamed put_child
  put_child-AllNamed k v nil h _ = (h, tt)
  put_child-AllNamed k v (cons j m c) h (h', hs) = elim (Bool-cases (beq j k)) [
    | inl same ↦ rw same (h, hs)
    | inr other ↦ rw other (h', put_child-AllNamed k v c h hs)
  ]

  pub set_slot-IsNamed :
      (slot : Slot) (v n : Node H R) → IsNamed v → IsNamed n → IsNamed (set_slot slot v n)
  unfolding IsNamed set_slot
  set_slot-IsNamed star v (node i c s p r) h (e, cs, bs, bp, br) = (e, cs, h, bp, br)
  set_slot-IsNamed param v (node i c s p r) h (e, cs, bs, bp, br) = (e, cs, bs, h, br)
  set_slot-IsNamed reg v (node i c s p r) h (e, cs, bs, bp, br) = (e, cs, bs, bp, h)
  set_slot-IsNamed (static k) v (node i c s p r) h (e, cs, bs, bp, br) =
      (e, put_child-AllNamed k v c h cs, bs, bp, br)

  or_create-IsNamed :
      (t : NodeType) (path name : Bytes) (expr : Option R) (b : Branch H R)
      → beq path star_path ≡ is_any t
      → BranchIsNamed b
      → IsNamed (or_create t path name expr b)
  unfolding IsNamed
  or_create-IsNamed t path name expr absent e h = (e, tt, tt, tt, tt)
  or_create-IsNamed t path name expr (present n) e h = h

  or_static-IsNamed :
      (path : Bytes) (c : Children H R)
      → beq path star_path ≡ false
      → AllNamed c
      → IsNamed (or_static path (get_child path c))
  unfolding IsNamed
  or_static-IsNamed path c a h = elim (Option-cases (get_child path c)) [
    | inl e ↦ rw e (a, tt, tt, tt, tt)
    | inr (n, e) ↦ rw e (get_child-IsNamed path c n h e)
  ]

  -- What a segment leads to: a well named child, in the place of a wildcard exactly for "*".
  abbrev pub Leads : Bytes → Slot × Node H R → Type 0
  Leads path (slot, child) = IsNamed child × (beq path star_path ≡ is_any (type_at slot))

  pub create_star-Leads :
      (path : Bytes) (n : Node H R) (made : Slot × Node H R)
      → beq path star_path ≡ is_any any_node
      → IsNamed n
      → create_star path n ≡ ok made
      → Leads path made
  unfolding create_star star_refusal IsNamed
  create_star-Leads path (node i c s (present p) r) made a h e = cc
  create_star-Leads path (node i c s absent (present r)) made a h e = cc
  create_star-Leads path (node i c s absent absent) (slot, child) a (_, cs, bs, bp, br) e =
      subst (Leads path) (pair_of e) (or_create-IsNamed any_node path [] none s a bs, a)

  create_reg-Leads :
      (path name : Bytes) (expr : R) (n : Node H R) (made : Slot × Node H R)
      → beq path star_path ≡ false
      → IsNamed n
      → create_reg path name expr n ≡ ok made
      → Leads path made
  unfolding create_reg reg_refusal IsNamed
  create_reg-Leads path name expr (node i c (present s) p r) made a h e = cc
  create_reg-Leads path name expr (node i c absent (present p) r) made a h e = cc
  create_reg-Leads path name expr (node i c absent absent r) (slot, child) a (_, cs, bs, bp, br) e =
      elim (Bool-cases (differs path r)) [
        | inl other ↦ cc (rw (other, create_reg) at e)
        | inr same ↦
            subst (Leads path) (pair_of (rw (same, create_reg) at e))
              (or_create-IsNamed reg_node path name (some expr) r a br, a)
      ]

  create_param-Leads :
      (path : Bytes) (n : Node H R) (made : Slot × Node H R)
      → beq path star_path ≡ false
      → IsNamed n
      → create_param path n ≡ ok made
      → Leads path made
  unfolding create_param param_refusal IsNamed
  create_param-Leads path (node i c (present s) p r) made a h e = cc
  create_param-Leads path (node i c absent p (present r)) made a h e = cc
  create_param-Leads path (node i c absent p absent) (slot, child) a (_, cs, bs, bp, br) e =
      elim (Bool-cases (differs path p)) [
        | inl other ↦ cc (rw (other, create_param) at e)
        | inr same ↦
            subst (Leads path) (pair_of (rw (same, create_param) at e))
              (or_create-IsNamed param_node path (tail_bytes path) none p a bp, a)
      ]

  create_static-Leads :
      (path : Bytes) (n : Node H R) (made : Slot × Node H R)
      → beq path star_path ≡ false
      → IsNamed n
      → create_static path n ≡ ok made
      → Leads path made
  unfolding create_static IsNamed
  create_static-Leads path (node i c s p r) (slot, child) a (_, cs, bs, bp, br) e =
      subst (Leads path) (pair_of e) (or_static-IsNamed path c a cs, a)

  pub create_by-Leads :
      (path : Bytes) (n : Node H R) (o : Result Panic (Option (Bytes × R))) (made : Slot × Node H R)
      → beq path star_path ≡ false
      → IsNamed n
      → create_by path n o ≡ ok made
      → Leads path made
  create_by-Leads path n (err x) made a h e = cc
  create_by-Leads path n (ok (some (name, expr))) made a h e =
      create_reg-Leads path name expr n made a h e
  create_by-Leads path n (ok none) made a h e = elim (Bool-cases (is_param path)) [
    | inl colon ↦ create_param-Leads path n made a h (rw colon at e)
    | inr plain ↦ create_static-Leads path n made a h (rw plain at e)
  ]
