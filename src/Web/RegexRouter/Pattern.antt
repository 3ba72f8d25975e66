-- ===== src/Web/RegexRouter/Pattern.antt =====
-- web/homework1/route.go: what a route matches, said without trees.
use go_study.Prelude.{
  Bool, Option, none, some, List, [], ◌∷◌, Result, ok, err, Bytes, beq, if◌then◌else◌,
}
use go_study.Web.Router.{is_param, star_path, tail_bytes}
use go_study.Web.Router.Find.{Params, add_value}
use go_study.Web.RegexRouter.{Regexp, Panic}
use go_study.Web.RegexRouter.Nodes.{parse_reg}

-- A segment of a route, and one of a request: the parameters with the one that is bound, if they
-- match.
module _ {R : Type 0} (rx : Regexp R) where
  abbrev pub allows_by : Bytes → Bytes → Params → Result Panic (Option (Bytes × R)) → Option Params
  allows_by seg r ps (err e) = none
  allows_by seg r ps (ok (some (name, expr))) =
      if rx.match_string expr r then some (add_value name r ps) else none
  allows_by seg r ps (ok none) =
      if is_param seg
      then some (add_value (tail_bytes seg) r ps)
      else if beq seg r
      then some ps
      else none

  unfoldable pub allows : Bytes → Bytes → Params → Option Params
  unfolding parse_reg
  allows seg r ps = if beq seg star_path then some ps else allows_by seg r ps (parse_reg rx seg)

  -- The segments of a route against those of a request; behind a last "*" anything may follow.
  unfoldable pub route_params : Bool → (segs reqs : List Bytes) → Params → Option Params
  unfolding allows
  route_params after_star [] [] ps = some ps
  route_params after_star [] (r ∷ rs) ps = if after_star then some ps else none
  route_params after_star (seg ∷ segs) [] ps = none
  route_params after_star (seg ∷ segs) (r ∷ rs) ps = elim (allows seg r ps) [
    | none ↦ none
    | some ps' ↦ route_params (beq seg star_path) segs rs ps'
  ]
