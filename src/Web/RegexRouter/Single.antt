-- ===== src/Web/RegexRouter/Single.antt =====
-- web/homework1/route.go: a tree with a single route serves what the route matches.
use mathlib.Core.Option
use go_study.Prelude.{
  Bool, false, Option, none, some, List, [], ◌∷◌, ◌≡◌, inl, inr, refl, sym, ap, ◌∙◌, subst, Bytes,
  beq, beq_refl, lookup, insert, Bool-cases, Option-cases, Result-cases,
}
use go_study.Web.Router.{star_path, root_path, tail_bytes, split_slash, trim_slashes}
use go_study.Web.Router.Find.{Params}
use go_study.Web.RegexRouter.{
  Regexp, Panic, is_any, Info, Node, node, Slot, info, leaf_node, new_info, static_node, set_slot,
  get_child,
}
use go_study.Web.RegexRouter.Nodes.{child_or_create, child_of}
use go_study.Web.RegexRouter.Routes.{
  Trees, register, get_root, walk, add_to_root, add_route, check_path_format, match_segs,
  find_route, has_conflict,
}
use go_study.Web.RegexRouter.Pattern.{allows, route_params}
use go_study.Web.RegexRouter.Placed.{
  went_on, match_segs-stepped, info-set_slot, IsPlaced, child_or_create-IsPlaced,
}

module _ {H R : Type 0} where
  -- A match counts when its node has a handler.
  abbrev pub served : Option (Node H R × Params) → Option (H × Params)
  served none = none
  served (some (n, ps)) = Option.map (λ h. (h, ps)) (info n).handler

module _ {H R : Type 0} (rx : Regexp R) (path : Bytes) (h : H) where
  -- The node of a route keeps its name and its expression.
  walk-info :
      (segs : List Bytes) (n : Node H R)
      → ((info (walk rx path segs (register path (some h)) n).0).param_name ≡ (info n).param_name)
        × ((info (walk rx path segs (register path (some h)) n).0).reg_expr ≡ (info n).reg_expr)
  unfolding walk register
  walk-info [] (node i c s p r) = elim (Bool-cases (has_conflict i.handler i.path)) [
    | inl e ↦ rw (e, register) (refl, refl)
    | inr e ↦ rw (e, register) (refl, refl)
  ]
  walk-info ([] ∷ segs) n = (refl, refl)
  walk-info ((b ∷ bs) ∷ segs) n = elim (Result-cases (child_or_create rx (b ∷ bs) n)) [
    | inl ((slot, child), e) ↦
        rw (e, walk)
          (rw (info-set_slot slot (walk rx path segs (register path (some h)) child).0 n)
            (refl, refl))
    | inr (q, e) ↦ rw (e, walk) (refl, refl)
  ]

  Matches : List Bytes → Info H R → Node H R → Type 0
  Matches segs i n =
      (reqs : List Bytes) (ps : Params)
      → served (match_segs rx reqs n ps)
        ≡ Option.map (λ q. (h, q)) (route_params rx (is_any i.typ) segs reqs ps)

  register_leaf :
      (i : Info H R)
      → i.handler ≡ none
      → (register path (some h) (leaf_node i)).0 ≡ leaf_node (record i { handler = some h })
  unfolding register
  register_leaf i free = rw (free, register) refl

  handled-Matches : (i : Info H R) → Matches [] i (leaf_node (record i { handler = some h }))
  unfolding Matches match_segs route_params child_of get_child
  handled-Matches i [] ps = refl
  handled-Matches i (r ∷ rs) ps = elim (Bool-cases (is_any i.typ)) [
    | inl any ↦ rw any refl
    | inr not_any ↦ rw not_any refl
  ]

  -- Where the route goes on after a segment.
  abbrev goes_on : Bytes → (segs rs : List Bytes) → Option Params → Option Params
  goes_on seg segs rs none = none
  goes_on seg segs rs (some ps) = route_params rx (beq seg star_path) segs rs ps

  route_params-goes_on :
      (after_star : Bool) (seg : Bytes) (segs : List Bytes) (r : Bytes) (rs : List Bytes)
      (ps : Params)
      → goes_on seg segs rs (allows rx seg r ps)
        ≡ route_params rx after_star (seg ∷ segs) (r ∷ rs) ps
  unfolding route_params
  route_params-goes_on after_star seg segs r rs ps = elim (Option-cases (allows rx seg r ps)) [
    | inl e ↦ rw (e, route_params) refl
    | inr (ps', e) ↦ rw (e, route_params) refl
  ]

  went_on-goes_on :
      (seg : Bytes) (segs rs : List Bytes) (n v : Node H R) (i : Info H R) (ps : Params)
      (o : Option Params)
      → (info n).handler ≡ none
      → is_any i.typ ≡ beq seg star_path
      → Matches segs i v
      → served (went_on rx rs n ps (Option.map (λ q. (v, q)) o))
        ≡ Option.map (λ q. (h, q)) (goes_on seg segs rs o)
  unfolding Matches
  went_on-goes_on seg segs rs n v i ps none free wild rest =
      elim (Bool-cases (is_any (info n).typ)) [
        | inl any ↦ rw any (rw free refl)
        | inr not_any ↦ rw not_any refl
      ]
  went_on-goes_on seg segs rs n v i ps (some q) free wild rest =
      rest rs q ∙ ap (λ b. Option.map (λ q'. (h, q')) (route_params rx b segs rs q)) wild

  set_slot-Matches :
      (seg : Bytes) (segs : List Bytes) (i : Info H R) (slot : Slot) (child v : Node H R)
      → i.handler ≡ none
      → IsPlaced rx seg i slot child
      → (info v).param_name ≡ (info child).param_name
      → (info v).reg_expr ≡ (info child).reg_expr
      → Matches segs (info child) v
      → Matches (seg ∷ segs) i (set_slot slot v (leaf_node i))
  unfolding Matches
  set_slot-Matches seg segs i slot child v free placed name expr rest [] ps =
      unfold match_segs route_params in rw (info-set_slot slot v (leaf_node i)) (rw free refl)
  set_slot-Matches seg segs i slot child v free placed name expr rest (r ∷ rs) ps =
      let n = set_slot slot v (leaf_node i) in
      ap served (match_segs-stepped rx r rs n ps)
      ∙ ap (λ o. served (went_on rx rs n ps o)) (placed.matches v r ps name expr)
      ∙ went_on-goes_on seg segs rs n v (info child) ps (allows rx seg r ps)
          (ap (λ (j : Info H R). j.handler) (info-set_slot slot v (leaf_node i)) ∙ free) placed.wild
          rest
      ∙ ap (λ o. Option.map (λ q. (h, q)) o) (route_params-goes_on (is_any i.typ) seg segs r rs ps)

  walk-Matches :
      (segs : List Bytes) (i : Info H R)
      → i.handler ≡ none
      → (walk rx path segs (register path (some h)) (leaf_node i)).1 ≡ none
      → Matches segs i (walk rx path segs (register path (some h)) (leaf_node i)).0
  unfolding walk
  walk-Matches [] i free quiet =
      subst (λ n. Matches [] i n) (sym (register_leaf i free)) (handled-Matches i)
  walk-Matches ([] ∷ segs) i free quiet = cc
  walk-Matches ((b ∷ bs) ∷ segs) i free quiet =
      elim (Result-cases (child_or_create rx (b ∷ bs) (leaf_node i))) [
        | inl ((slot, child), e) ↦
            let placed = child_or_create-IsPlaced rx (b ∷ bs) i slot child e in
            let (name, expr) = walk-info segs child in
            let rest = walk-Matches segs (info child) placed.unhandled (
              subst (λ n. (walk rx path segs (register path (some h)) n).1 ≡ none) placed.childless
                (rw (e, walk) at quiet)) in
            rw (e, walk)
              (set_slot-Matches (b ∷ bs) segs i slot child
                (walk rx path segs (register path (some h)) child).0 free placed name expr
                (subst
                  (λ n. Matches segs (info child) (walk rx path segs (register path (some h)) n).0)
                  (sym placed.childless) rest))
        | inr (q, e) ↦ cc (rw (e, walk) at quiet)
      ]

module _ {H R : Type 0} (rx : Regexp R) where
  abbrev new_root : Node H R
  new_root = leaf_node (new_info static_node root_path [] none)

  walk_root : Bytes → H → Node H R × Option Panic
  unfolding walk register split_slash
  walk_root path h = walk rx path (split_slash (tail_bytes path)) (register path (some h)) new_root

  add_route-walk_root :
      (method path : Bytes) (h : H) (trees : Trees H R)
      → add_route rx [] method path (some h) ≡ (trees, none)
      → beq path root_path ≡ false
      → (((method, (walk_root path h).0) ∷ []) ≡ trees) × ((walk_root path h).1 ≡ none)
  unfolding add_route add_to_root get_root lookup insert walk_root
  add_route-walk_root method path h trees e not_root =
      elim (Option-cases (check_path_format path)) [
        | inl good ↦
            let e' = rw (not_root, add_to_root) at (rw (good, add_route) at e) in
            (
              ap (λ (t : Trees H R × Option Panic). t.0) e',
              ap (λ (t : Trees H R × Option Panic). t.1) e',
            )
        | inr (p, bad) ↦ cc (rw (bad, add_route) at e)
      ]

  find_root :
      (method req : Bytes) (root : Node H R)
      → beq req root_path ≡ false
      → find_route rx ((method, root) ∷ []) method req
        ≡ match_segs rx (split_slash (trim_slashes req)) root none
  unfolding find_route lookup
  find_root method req root other = rw (beq_refl method, find_route) (rw other refl)

-- A router with a single route, registered with a handler and without a panic, serves exactly what
-- the route matches, segment by segment, with the parameters that the segments bind: a name takes
-- the segment, a regular expression takes it if it matches, "*" takes any, and behind a last "*"
-- more may follow. The paths "/" of the route and of the request are apart.
pub find_route-add_route :
    {H R : Type 0} (rx : Regexp R) (method path req : Bytes) (h : H) (trees : Trees H R)
    → add_route rx [] method path (some h) ≡ (trees, none)
    → beq path root_path ≡ false
    → beq req root_path ≡ false
    → served (find_route rx trees method req)
      ≡ Option.map
          (λ q. (h, q))
          (route_params rx false
            (split_slash (tail_bytes path))
            (split_slash (trim_slashes req))
            none)
unfolding walk_root Matches
find_route-add_route rx method path req h trees e not_root other =
    let (stored, quiet) = add_route-walk_root rx method path h trees e not_root in
    let segs = split_slash (tail_bytes path) in
    rw (← stored) (
      ap served (find_root rx method req (walk_root rx path h).0 other)
      ∙ walk-Matches rx path h segs (new_info static_node root_path [] none) refl quiet
          (split_slash (trim_slashes req)) none)
