-- ===== src/Web/RegexRouter/Shape.antt =====
-- The shape of the routing trees of web/homework1/route.go, and what registering keeps of it.
use go_study.Prelude.{
  false, Option, none, some, [], ◌≡◌, inl, inr, refl, subst, arith, Result, ok, err, Bytes, beq,
  Bool-cases, Option-cases,
}
use go_study.Web.Router.{is_param, star_path, tail_bytes}
use go_study.Web.RegexRouter.{
  Panic, NodeType, static_node, reg_node, param_node, any_node, Node, node, Children, nil, cons,
  Branch, absent, present, Slot, star, param, reg, static, info, get_child, put_child, set_slot,
  or_create, or_static, create_star, create_reg, create_param, create_static, star_refusal,
  reg_refusal, param_refusal, differs,
}
use go_study.Web.RegexRouter.Nodes.{create_by}
use go_study.Web.RegexRouter.Routes.{has_conflict, register, register_root}

module _ {H R : Type 0} where
  -- Of a starChild, a paramChild and a regChild there is one at most.
  abbrev pub AreExclusive : (s p r : Branch H R) → Type 0
  AreExclusive absent absent r = Unit
  AreExclusive absent (present p) absent = Unit
  AreExclusive (present s) absent absent = Unit
  AreExclusive absent (present p) (present r) = ⊥
  AreExclusive (present s) (present p) r = ⊥
  AreExclusive (present s) absent (present r) = ⊥

-- A tree whose root has a type: no static child hides one of the others, and each child has the type
-- of its place, and, for a regular expression, its expression.
unfoldable mutual
  pub IsTree : {H R : Type 0} → NodeType → Node H R → Type 0
  IsTree t (node i c s p r) =
      (i.typ ≡ t)
      × AreExclusive s p r
      × AreStatic c
      × IsBranch any_node s
      × IsBranch param_node p
      × IsBranch reg_node r

  pub AreStatic : {H R : Type 0} → Children H R → Type 0
  AreStatic nil = Unit
  AreStatic (cons k n c) =
      (beq k star_path ≡ false) × (is_param k ≡ false) × IsTree static_node n × AreStatic c

  pub IsBranch : {H R : Type 0} → NodeType → Branch H R → Type 0
  IsBranch t absent = Unit
  IsBranch t (present n) = IsTree t n

-- The type of the child in a place.
abbrev pub type_at : Slot → NodeType
type_at star = any_node
type_at param = param_node
type_at reg = reg_node
type_at (static k) = static_node

module _ {H R : Type 0} where
  -- A child that may be changed in its place.
  abbrev pub Fits : Node H R → Slot × Node H R → Type 0
  Fits n (slot, child) =
      IsTree (type_at slot) child
      × ((v : Node H R) → IsTree (type_at slot) v → IsTree (info n).typ (set_slot slot v n))

  or_create-IsTree :
      (t : NodeType) (path name : Bytes) (expr : Option R) (b : Branch H R)
      → IsBranch t b
      → IsTree t (or_create t path name expr b)
  unfolding IsTree
  or_create-IsTree t path name expr absent h = (refl, tt, tt, tt, tt, tt)
  or_create-IsTree t path name expr (present n) h = h

  pub pair_of :
      {slot slot' : Slot} {n n' : Node H R}
      → ◌≡◌ {A = Result Panic (Slot × Node H R)} (ok (slot, n)) (ok (slot', n'))
      → ◌≡◌ {A = Slot × Node H R} (slot, n) (slot', n')
  pair_of e = cc

  pub create_star-Fits :
      (path : Bytes) (t : NodeType) (n : Node H R) (made : Slot × Node H R)
      → IsTree t n
      → create_star path n ≡ ok made
      → Fits n made
  unfolding create_star star_refusal IsTree set_slot
  create_star-Fits path t (node i c s (present p) r) made h e = cc
  create_star-Fits path t (node i c s absent (present r)) made h e = cc
  create_star-Fits path t (node i c s absent absent) (slot, child) (ty, ex, cs, bs, bp, br) e =
      subst (Fits (node i c s absent absent)) (pair_of e)
        (or_create-IsTree any_node path [] none s bs, λ v hv. (refl, tt, cs, hv, tt, tt))

  create_reg-Fits :
      (path name : Bytes) (expr : R) (t : NodeType) (n : Node H R) (made : Slot × Node H R)
      → IsTree t n
      → create_reg path name expr n ≡ ok made
      → Fits n made
  unfolding create_reg reg_refusal IsTree set_slot
  create_reg-Fits path name expr t (node i c (present s) p r) made h e = cc
  create_reg-Fits path name expr t (node i c absent (present p) r) made h e = cc
  create_reg-Fits path name expr t (node i c absent absent r) (slot, child) (ty, ex, cs, bs, bp, br)
        e =
      elim (Bool-cases (differs path r)) [
        | inl other ↦ cc (rw (other, create_reg) at e)
        | inr same ↦
            subst (Fits (node i c absent absent r)) (pair_of (rw (same, create_reg) at e)) (
              or_create-IsTree reg_node path name (some expr) r br,
              λ v hv. (refl, tt, cs, tt, tt, hv),
            )
      ]

  create_param-Fits :
      (path : Bytes) (t : NodeType) (n : Node H R) (made : Slot × Node H R)
      → IsTree t n
      → create_param path n ≡ ok made
      → Fits n made
  unfolding create_param param_refusal IsTree set_slot
  create_param-Fits path t (node i c (present s) p r) made h e = cc
  create_param-Fits path t (node i c absent p (present r)) made h e = cc
  create_param-Fits path t (node i c absent p absent) (slot, child) (ty, ex, cs, bs, bp, br) e =
      elim (Bool-cases (differs path p)) [
        | inl other ↦ cc (rw (other, create_param) at e)
        | inr same ↦
            subst (Fits (node i c absent p absent)) (pair_of (rw (same, create_param) at e)) (
              or_create-IsTree param_node path (tail_bytes path) none p bp,
              λ v hv. (refl, tt, cs, tt, hv, tt),
            )
      ]

  get_child-IsTree :
      (k : Bytes) (c : Children H R) (n : Node H R)
      → AreStatic c
      → get_child k c ≡ some n
      → IsTree static_node n
  unfolding IsTree get_child
  get_child-IsTree k nil n h e = cc
  get_child-IsTree k (cons j m c) n (_, _, h, hs) e = elim (Bool-cases (beq j k)) [
    | inl same ↦ subst (IsTree static_node) (ground arith) h
    | inr other ↦ get_child-IsTree k c n hs (ground arith)
  ]

  put_child-AreStatic :
      (k : Bytes) (v : Node H R) (c : Children H R)
      → beq k star_path ≡ false
      → is_param k ≡ false
      → IsTree static_node v
      → AreStatic c
      → AreStatic (put_child k v c)
  unfolding IsTree put_child
  put_child-AreStatic k v nil a b h _ = (a, b, h, tt)
  put_child-AreStatic k v (cons j m c) a b h (a', b', h', hs) = elim (Bool-cases (beq j k)) [
    | inl same ↦ rw same (a', b', h, hs)
    | inr other ↦ rw other (a', b', h', put_child-AreStatic k v c a b h hs)
  ]

  or_static-IsTree :
      (path : Bytes) (c : Children H R)
      → AreStatic c
      → IsTree static_node (or_static path (get_child path c))
  unfolding IsTree
  or_static-IsTree path c h = elim (Option-cases (get_child path c)) [
    | inl e ↦ rw e (refl, tt, tt, tt, tt, tt)
    | inr (n, e) ↦ rw e (get_child-IsTree path c n h e)
  ]

  create_static-Fits :
      (path : Bytes) (t : NodeType) (n : Node H R) (made : Slot × Node H R)
      → beq path star_path ≡ false
      → is_param path ≡ false
      → IsTree t n
      → create_static path n ≡ ok made
      → Fits n made
  unfolding create_static IsTree set_slot
  create_static-Fits path t (node i c s p r) (slot, child) a b (ty, ex, cs, bs, bp, br) e =
      subst (Fits (node i c s p r)) (pair_of e) (
        or_static-IsTree path c cs,
        λ v hv. (refl, ex, put_child-AreStatic path v c a b hv cs, bs, bp, br),
      )

  pub create_by-Fits :
      (path : Bytes) (t : NodeType) (n : Node H R) (o : Result Panic (Option (Bytes × R)))
      (made : Slot × Node H R)
      → beq path star_path ≡ false
      → IsTree t n
      → create_by path n o ≡ ok made
      → Fits n made
  create_by-Fits path t n (err x) made a h e = cc
  create_by-Fits path t n (ok (some (name, expr))) made a h e =
      create_reg-Fits path name expr t n made h e
  create_by-Fits path t n (ok none) made a h e = elim (Bool-cases (is_param path)) [
    | inl colon ↦ create_param-Fits path t n made h (rw colon at e)
    | inr plain ↦ create_static-Fits path t n made a plain h (rw plain at e)
  ]

  pub register-IsTree :
      (t : NodeType) (path : Bytes) (handler : Option H) (n : Node H R)
      → IsTree t n
      → IsTree t (register path handler n).0 × IsTree t (register_root handler n).0
  unfolding register register_root IsTree
  register-IsTree t path handler (node i c s p r) h = (
    elim (Bool-cases (has_conflict i.handler i.path)) [
      | inl e ↦ rw (e, register) h
      | inr e ↦ rw (e, register) h
    ],
    elim (Option-cases i.handler) [
      | inl e ↦ rw (e, register_root) h
      | inr (_, e) ↦ rw (e, register_root) h
    ],
  )
