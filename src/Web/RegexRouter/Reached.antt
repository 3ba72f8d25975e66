-- ===== src/Web/RegexRouter/Reached.antt =====
-- The paths of the nodes in the trees of web/homework1/route.go, and where a segment leads.
use go_study.Prelude.{
  Option, List, [], ◌∷◌, ◌≡◌, inl, inr, refl, sym, ap, ◌∙◌, ok, Bytes, beq, lookup, Bool-cases,
  Option-cases, Result-cases, All,
}
use go_study.Web.Router.{star_path, root_path, tail_bytes, split_slash}
use go_study.Web.RegexRouter.{Regexp, Panic, NodeType, is_any, Node, node, Slot, info}
use go_study.Web.RegexRouter.Nodes.{child_or_create, parse_reg}
use go_study.Web.RegexRouter.Routes.{
  Trees, has_conflict, register, register_root, get_root, walk, add_to_root, add_route,
  check_path_format,
}
use go_study.Web.RegexRouter.Shape.{IsTree, type_at}
use go_study.Web.RegexRouter.Invariant.{lookup-All, insert-All, child_or_create-Fits, node_type}
use go_study.Web.RegexRouter.Named.{
  IsNamed, Leads, name_type, set_slot-IsNamed, create_star-Leads, create_by-Leads,
}

module _ {H R : Type 0} where
  register-IsNamed :
      (path : Bytes) (handler : Option H) (n : Node H R)
      → IsNamed n
      → IsNamed (register path handler n).0 × IsNamed (register_root handler n).0
  unfolding register register_root IsNamed
  register-IsNamed path handler (node i c s p r) h = (
    elim (Bool-cases (has_conflict i.handler i.path)) [
      | inl e ↦ rw (e, register) h
      | inr e ↦ rw (e, register) h
    ],
    elim (Option-cases i.handler) [
      | inl e ↦ rw (e, register_root) h
      | inr (_, e) ↦ rw (e, register_root) h
    ],
  )

  abbrev pub AreNamed : Trees H R → Type 0
  AreNamed = All (λ e. IsNamed e.1)

  pub get_root-IsNamed :
      (method : Bytes) (trees : Trees H R) → AreNamed trees → IsNamed (get_root method trees)
  unfolding get_root beq
  get_root-IsNamed method trees h = elim (Option-cases (lookup method trees)) [
    | inl e ↦ rw (e, get_root) (unfold IsNamed in (refl, tt, tt, tt, tt))
    | inr (n, e) ↦ rw (e, get_root) (lookup-All IsNamed method trees n h e)
  ]

module _ {H R : Type 0} (rx : Regexp R) where
  pub child_or_create-Leads :
      (path : Bytes) (n : Node H R) (made : Slot × Node H R)
      → IsNamed n
      → child_or_create rx path n ≡ ok made
      → Leads path made
  unfolding child_or_create
  child_or_create-Leads path n made h e = elim (Bool-cases (beq path star_path)) [
    | inl a ↦ create_star-Leads path n made a h (rw (a, child_or_create) at e)
    | inr a ↦ create_by-Leads path n (parse_reg rx path) made a h (rw (a, child_or_create) at e)
  ]

  -- The child that a segment leads to is called "*" exactly if the segment is "*".
  pub child_or_create-path :
      (path : Bytes) (t : NodeType) (n : Node H R) (slot : Slot) (child : Node H R)
      → IsTree t n
      → IsNamed n
      → child_or_create rx path n ≡ ok (slot, child)
      → beq (info child).path star_path ≡ beq path star_path
  child_or_create-path path t n slot child tree named e =
      let (well, place) = child_or_create-Leads path n (slot, child) named e in
      name_type child well
      ∙ ap is_any (
          node_type rx (type_at slot) child
            (child_or_create-Fits rx path t n (slot, child) tree e).0)
      ∙ sym place

  walk-IsNamed :
      (path : Bytes) (segs : List Bytes) (leaf : Node H R → Node H R × Option Panic) (n : Node H R)
      → ((m : Node H R) → IsNamed m → IsNamed (leaf m).0)
      → IsNamed n
      → IsNamed (walk rx path segs leaf n).0
  unfolding walk
  walk-IsNamed path [] leaf n keep h = keep n h
  walk-IsNamed path ([] ∷ segs) leaf n keep h = h
  walk-IsNamed path ((b ∷ bs) ∷ segs) leaf n keep h =
      elim (Result-cases (child_or_create rx (b ∷ bs) n)) [
        | inl ((slot, child), e) ↦
            let well = (child_or_create-Leads (b ∷ bs) n (slot, child) h e).0 in
            rw (e, walk) (set_slot-IsNamed slot _ n (walk-IsNamed path segs leaf child keep well) h)
        | inr (q, e) ↦ rw (e, walk) h
      ]

  add_to_root-IsNamed :
      (path : Bytes) (handler : Option H) (root : Node H R)
      → IsNamed root
      → IsNamed (add_to_root rx path handler root).0
  unfolding add_to_root
  add_to_root-IsNamed path handler root h = elim (Bool-cases (beq path root_path)) [
    | inl e ↦ rw (e, add_to_root) (register-IsNamed path handler root h).1
    | inr e ↦
        rw (e, add_to_root)
          (walk-IsNamed path (split_slash (tail_bytes path)) (register path handler) root
            (λ m k. (register-IsNamed path handler m k).0) h)
  ]

  -- Registering keeps well named trees so.
  pub add_route-AreNamed :
      (trees : Trees H R) (method path : Bytes) (handler : Option H)
      → AreNamed trees
      → AreNamed (add_route rx trees method path handler).0
  unfolding add_route
  add_route-AreNamed trees method path handler h = elim (Option-cases (check_path_format path)) [
    | inl e ↦
        rw (e, add_route)
          (insert-All IsNamed method _ trees
            (add_to_root-IsNamed path handler (get_root method trees)
              (get_root-IsNamed method trees h))
            h)
    | inr (p, e) ↦ rw (e, add_route) h
  ]
