-- ===== src/Web/Router/Find.antt =====
-- web/homework2/route.go: matching a request path against a tree, and the middlewares on the way.
use go_study.Prelude.{
  Bool, true, false, Option, none, some, List, [], ◌∷◌, ◌++◌, if◌then◌else◌, Bytes, beq, lookup,
  insert,
}
use go_study.Web.Router.{
  Node, Branch, absent, present, info, children, star_child, param_child, to_option, get_child,
  split_slash, trim_slashes, root_path, tail_bytes, Trees,
}

-- A nil map is `none`.
abbrev pub Params : Type 0
Params = Option (List (Bytes × Bytes))

pub record MatchInfo (H M : Type 0) : Type 0 where
  pub n : Node H M
  pub path_params : Params
  pub mdls : List M

-- `addValue`
unfoldable pub add_value : Bytes → Bytes → Params → Params
add_value key value none = some (insert key value [])
add_value key value (some m) = some (insert key value m)

module _ {H M : Type 0} where
  pub or_star : Branch H M → Branch H M → Option (Node H M × Bool)
  or_star s (present p) = some (p, true)
  or_star (present s) absent = some (s, false)
  or_star absent absent = none

  -- `childOf`: the child and whether it is the paramChild; `none` for no match.
  unfoldable pub child_of : Bytes → Node H M → Option (Node H M × Bool)
  unfolding or_star get_child
  child_of path n = elim (get_child path (children n)) [
    | some c ↦ some (c, false)
    | none ↦ or_star (star_child n) (param_child n)
  ]

  -- The loop of `findRoute`.
  unfoldable pub match_segs : List Bytes → Node H M → Params → Option (Node H M × Params)
  unfolding child_of add_value
  match_segs [] cur params = some (cur, params)
  match_segs (s ∷ segs) cur params = elim (child_of s cur) [
    | none ↦ none
    | some (c, is_param) ↦
        match_segs segs c
          (if is_param then add_value (tail_bytes (info c).path) s params else params)
  ]

  abbrev pub branch_list : Branch H M → List (Node H M)
  branch_list absent = []
  branch_list (present n) = n ∷ []

  abbrev pub option_list : Option (Node H M) → List (Node H M)
  option_list none = []
  option_list (some n) = n ∷ []

  -- The children of one node that a segment leads to, whatever the others are.
  unfoldable pub next_of : Bytes → Node H M → List (Node H M)
  unfolding get_child
  next_of seg n =
      branch_list (star_child n)
      ++ (branch_list (param_child n) ++ option_list (get_child seg (children n)))

  unfoldable pub next_level : Bytes → List (Node H M) → List (Node H M)
  unfolding next_of
  next_level seg [] = []
  next_level seg (n ∷ q) = next_of seg n ++ next_level seg q

  -- The loop of `findMdls` over the levels: it stops at the last segment or at an empty level.
  unfoldable pub levels : List Bytes → List (Node H M) → List (Node H M) → List (Node H M)
  unfolding next_level
  levels [] q res = res
  levels (seg ∷ segs) [] res = res
  levels (seg ∷ segs) (n ∷ q) res = let p = next_level seg (n ∷ q) in levels segs p (res ++ p)

  unfoldable pub all_mdls : List (Node H M) → List M
  all_mdls [] = []
  all_mdls (n ∷ res) = (info n).mdls ++ all_mdls res

  unfoldable pub find_mdls : Node H M → List Bytes → List M
  unfolding levels all_mdls
  find_mdls root segs = all_mdls (levels segs (root ∷ []) (root ∷ []))

  unfoldable pub find_segs : List Bytes → Node H M → Option (MatchInfo H M)
  unfolding match_segs find_mdls
  find_segs segs root = elim (match_segs segs root none) [
    | none ↦ none
    | some (cur, params) ↦
        some (record { n = cur; path_params = params; mdls = find_mdls root segs })
  ]

  -- `findRoute`
  unfoldable pub find_route : Trees H M → (method path : Bytes) → Option (MatchInfo H M)
  unfolding find_segs
  find_route trees method path = elim (lookup method trees) [
    | none ↦ none
    | some root ↦
        if beq path root_path
        then some (record { n = root; path_params = none; mdls = (info root).mdls })
        else find_segs (split_slash (trim_slashes path)) root
  ]

  -- `childrenOf`, which nothing calls: where there is a paramChild it adds the starChild.
  unfoldable pub children_of : Bytes → Node H M → List (Option (Node H M))
  children_of path n =
      star_entry (star_child n)
      ++ (param_entry (param_child n) ++ static_entry (get_child path (children n)))
    where
      star_entry : Branch H M → List (Option (Node H M))
      star_entry absent = []
      star_entry (present s) = some s ∷ []

      param_entry : Branch H M → List (Option (Node H M))
      param_entry absent = []
      param_entry (present p) = to_option (star_child n) ∷ []

      static_entry : Option (Node H M) → List (Option (Node H M))
      static_entry none = []
      static_entry (some c) = some c ∷ []
