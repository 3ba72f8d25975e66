-- ===== src/Web/RegexRouter/Routes.antt =====
-- web/homework1/route.go: registering a route, and finding the one of a request.
use go_study.Prelude.{
  Bool, true, false, Option, none, some, List, [], ◌∷◌, ◌==◌, if◌then◌else◌, ok, err, Bytes, beq,
  lookup, insert,
}
use go_study.Web.Router.{
  slash, star_path, root_path, split_slash, trim_slashes, last_is_slash, tail_bytes,
}
use go_study.Web.Router.Find.{Params, add_value}
use go_study.Web.RegexRouter.{
  Regexp, Panic, empty_path, no_leading_slash, trailing_slash, root_conflict, empty_segment,
  conflict, static_node, is_any, Node, node, info, leaf_node, new_info, set_slot,
}
use go_study.Web.RegexRouter.Nodes.{child_or_create, child_of}

-- `checkPathFormat`
unfoldable pub check_path_format : Bytes → Option Panic
unfolding last_is_slash
check_path_format [] = some empty_path
check_path_format (b ∷ bs) =
    if b == slash
    then (if beq (b ∷ bs) root_path
        then none
        else if last_is_slash (b ∷ bs)
        then some trailing_slash
        else none)
    else some no_leading_slash

abbrev pub Trees : Type 0 → Type 0 → Type 0
Trees H R = List (Bytes × Node H R)

-- The test for a conflict leaves out a node of a wildcard.
abbrev pub has_conflict : {H : Type 0} → Option H → Bytes → Bool
has_conflict none path = false
has_conflict (some h) path = if beq path star_path then false else true

module _ {H R : Type 0} where
  abbrev pub set_handler : Option H → Node H R → Node H R
  set_handler handler (node i c s p r) = node (record i { handler = handler }) c s p r

  -- What `handleSegmentRouter` does at the node that the segments lead to.
  unfoldable pub register : Bytes → Option H → Node H R → Node H R × Option Panic
  register path handler n =
      if has_conflict (info n).handler (info n).path
      then (n, some (conflict path))
      else (set_handler handler n, none)

  unfoldable pub register_root : Option H → Node H R → Node H R × Option Panic
  register_root handler n = elim (info n).handler [
    | some h ↦ (n, some root_conflict)
    | none ↦ (set_handler handler n, none)
  ]

  unfoldable pub get_root : Bytes → Trees H R → Node H R
  get_root method trees = elim (lookup method trees) [
    | none ↦ leaf_node (new_info static_node root_path [] none)
    | some n ↦ n
  ]

module _ {H R : Type 0} (rx : Regexp R) where
  -- The loop of `handleSegmentRouter`. A panic leaves the nodes that were created before it.
  unfoldable pub walk :
      Bytes → List Bytes → (Node H R → Node H R × Option Panic) → Node H R → Node H R × Option Panic
  unfolding child_or_create set_slot
  walk path [] leaf n = leaf n
  walk path ([] ∷ segs) leaf n = (n, some (empty_segment path))
  walk path ((b ∷ bs) ∷ segs) leaf n = elim (child_or_create rx (b ∷ bs) n) [
    | err p ↦ (n, some p)
    | ok (slot, child) ↦ let (child', r) = walk path segs leaf child in (set_slot slot child' n, r)
  ]

  -- `handleRootRouter` and `handleSegmentRouter`
  unfoldable pub add_to_root : Bytes → Option H → Node H R → Node H R × Option Panic
  unfolding register register_root walk split_slash
  add_to_root path handler root =
      if beq path root_path
      then register_root handler root
      else walk path (split_slash (tail_bytes path)) (register path handler) root

  -- `addRoute`: the trees afterwards, and the panic.
  unfoldable pub add_route : Trees H R → (method path : Bytes) → Option H → Trees H R × Option Panic
  unfolding check_path_format add_to_root get_root
  add_route trees method path handler = elim (check_path_format path) [
    | some p ↦ (trees, some p)
    | none ↦
        let (root, r) = add_to_root path handler (get_root method trees) in
        (insert method root trees, r)
  ]

  -- The loop of `findPathRoute`. Where a segment leads nowhere, the node of a wildcard is the match.
  unfoldable pub match_segs : List Bytes → Node H R → Params → Option (Node H R × Params)
  unfolding child_of add_value
  match_segs [] cur params = some (cur, params)
  match_segs (s ∷ segs) cur params = elim (child_of rx s cur) [
    | none ↦ if is_any (info cur).typ then some (cur, params) else none
    | some (c, match_param) ↦
        match_segs segs c (if match_param then add_value (info c).param_name s params else params)
  ]

  -- `findRoute`: the node, and the parameters.
  unfoldable pub find_route : Trees H R → (method path : Bytes) → Option (Node H R × Params)
  unfolding match_segs
  find_route trees method path = elim (lookup method trees) [
    | none ↦ none
    | some root ↦
        if beq path root_path
        then some (root, none)
        else match_segs (split_slash (trim_slashes path)) root none
  ]
