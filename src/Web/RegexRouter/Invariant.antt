-- ===== src/Web/RegexRouter/Invariant.antt =====
-- The trees of web/homework1/route.go keep their shape.
use go_study.Prelude.{
  Option, some, List, [], ◌∷◌, ◌≡◌, inl, inr, refl, subst, arith, ok, Bytes, beq, lookup, insert,
  Bool-cases, Option-cases, Result-cases, All,
}
use go_study.Web.Router.{star_path, root_path, tail_bytes, split_slash}
use go_study.Web.RegexRouter.{
  Regexp, Panic, NodeType, static_node, Node, node, Slot, info, set_slot,
}
use go_study.Web.RegexRouter.Nodes.{child_or_create, parse_reg}
use go_study.Web.RegexRouter.Routes.{
  register, get_root, walk, add_to_root, add_route, check_path_format, Trees,
}
use go_study.Web.RegexRouter.Shape.{
  IsTree, Fits, type_at, create_star-Fits, create_by-Fits, register-IsTree,
}

module _ {V : Type 0} (P : V → Type 0) where
  pub lookup-All :
      (key : Bytes) (m : List (Bytes × V)) (v : V)
      → All (λ e. P e.1) m
      → lookup key m ≡ some v
      → P v
  unfolding lookup
  lookup-All key [] v h e = cc
  lookup-All key ((k, w) ∷ m) v (h, hs) e = elim (Bool-cases (beq k key)) [
    | inl same ↦ subst P (ground arith) h
    | inr other ↦ lookup-All key m v hs (ground arith)
  ]

  pub insert-All :
      (key : Bytes) (v : V) (m : List (Bytes × V))
      → P v
      → All (λ e. P e.1) m
      → All (λ e. P e.1) (insert key v m)
  unfolding insert
  insert-All key v [] h _ = (h, tt)
  insert-All key v ((k, w) ∷ m) h (h', hs) = elim (Bool-cases (beq k key)) [
    | inl same ↦ rw same (h, hs)
    | inr other ↦ rw other (h', insert-All key v m h hs)
  ]

module _ {H R : Type 0} where
  abbrev pub AreRegexTrees : Trees H R → Type 0
  AreRegexTrees = All (λ e. IsTree static_node e.1)

  pub get_root-IsTree :
      (method : Bytes) (trees : Trees H R)
      → AreRegexTrees trees
      → IsTree static_node (get_root method trees)
  unfolding get_root
  get_root-IsTree method trees h = elim (Option-cases (lookup method trees)) [
    | inl e ↦ rw (e, get_root) (unfold IsTree in (refl, tt, tt, tt, tt, tt))
    | inr (n, e) ↦ rw (e, get_root) (lookup-All (IsTree static_node) method trees n h e)
  ]

module _ {H R : Type 0} (rx : Regexp R) where
  pub child_or_create-Fits :
      (path : Bytes) (t : NodeType) (n : Node H R) (made : Slot × Node H R)
      → IsTree t n
      → child_or_create rx path n ≡ ok made
      → Fits n made
  unfolding child_or_create
  child_or_create-Fits path t n made h e = elim (Bool-cases (beq path star_path)) [
    | inl a ↦ create_star-Fits path t n made h (rw (a, child_or_create) at e)
    | inr a ↦ create_by-Fits path t n (parse_reg rx path) made a h (rw (a, child_or_create) at e)
  ]

  pub node_type : (t : NodeType) (n : Node H R) → IsTree t n → (info n).typ ≡ t
  unfolding IsTree
  node_type t (node i c s p r) h = h.0

  walk-IsTree :
      (path : Bytes) (segs : List Bytes) (leaf : Node H R → Node H R × Option Panic) (t : NodeType)
      (n : Node H R)
      → ((t : NodeType) (m : Node H R) → IsTree t m → IsTree t (leaf m).0)
      → IsTree t n
      → IsTree t (walk rx path segs leaf n).0
  unfolding walk
  walk-IsTree path [] leaf t n keep h = keep t n h
  walk-IsTree path ([] ∷ segs) leaf t n keep h = h
  walk-IsTree path ((b ∷ bs) ∷ segs) leaf t n keep h =
      elim (Result-cases (child_or_create rx (b ∷ bs) n)) [
        | inl ((slot, child), e) ↦
            let (ct, put) = child_or_create-Fits (b ∷ bs) t n (slot, child) h e in
            rw (e, walk)
              (subst (λ u. IsTree u (set_slot slot (walk rx path segs leaf child).0 n))
                (node_type t n h) (put _ (walk-IsTree path segs leaf (type_at slot) child keep ct)))
        | inr (q, e) ↦ rw (e, walk) h
      ]

  add_to_root-IsTree :
      (path : Bytes) (handler : Option H) (root : Node H R)
      → IsTree static_node root
      → IsTree static_node (add_to_root rx path handler root).0
  unfolding add_to_root
  add_to_root-IsTree path handler root h = elim (Bool-cases (beq path root_path)) [
    | inl e ↦ rw (e, add_to_root) (register-IsTree static_node path handler root h).1
    | inr e ↦
        rw (e, add_to_root)
          (walk-IsTree path (split_slash (tail_bytes path)) (register path handler) static_node root
            (λ t m k. (register-IsTree t path handler m k).0) h)
  ]

  add_route_root :
      (trees : Trees H R) (method path : Bytes) (handler : Option H)
      → AreRegexTrees trees
      → IsTree static_node (add_to_root rx path handler (get_root method trees)).0
  add_route_root trees method path handler h =
      add_to_root-IsTree path handler (get_root method trees) (get_root-IsTree method trees h)

  -- Registering keeps well-shaped trees so, also when it ends in a panic half way: of a starChild, a
  -- paramChild and a regChild a node has one at most, each of the type of its place, and no static
  -- child is called "*" or begins with a colon.
  pub add_route-AreRegexTrees :
      (trees : Trees H R) (method path : Bytes) (handler : Option H)
      → AreRegexTrees trees
      → AreRegexTrees (add_route rx trees method path handler).0
  unfolding add_route
  add_route-AreRegexTrees trees method path handler h =
      elim (Option-cases (check_path_format path)) [
        | inl e ↦
            rw (e, add_route)
              (insert-All (IsTree static_node) method _ trees
                (add_route_root trees method path handler h) h)
        | inr (p, e) ↦ rw (e, add_route) h
      ]
