-- ===== src/Web/Router/Tests.antt =====
-- Runs of the router of web/homework2/route.go, and its theorems at a concrete tree.
use go_study.Prelude.{
  ℕ, ◌≡◌, refl, List, [], ◌∷◌, some, none, Option, Bytes, bytes, beq, lookup, insert,
}
use go_study.Web.Router.{Trees, add_route, conflict, trim_slashes, info}
use go_study.Web.Router.Find.{MatchInfo, find_route}
use go_study.Web.Router.Shape.{AreTrees, add_route-AreTrees}
use go_study.Web.Router.Registered.{IsFound, add_route-IsFound}

abbrev get : Bytes
get = bytes "GET"

abbrev T : Type 0
T = Trees ℕ ℕ

-- Handlers and middlewares are numbers here.
abbrev first : T
first = (add_route [] get (bytes "/user/:id") (some 1) (10 ∷ [])).0

abbrev second : T
second = (add_route first get (bytes "/user/home") (some 2) []).0

router : Unit {0}
unfolding add_route find_route beq lookup insert trim_slashes
router = tt

second_quiet : add_route first get (bytes "/user/home") (some 2) [] ≡ (second, none)
unfolding router
second_quiet = refl

abbrev shown : Option (MatchInfo ℕ ℕ) → Option (Option ℕ × List ℕ × Option (List (Bytes × Bytes)))
shown none = none
shown (some m) = some ((info m.n).handler, m.mdls, m.path_params)

find_route_runs :
    (shown (find_route second get (bytes "/user/7/"))
      ≡ some (some 1, 10 ∷ [], some ((bytes "id", bytes "7") ∷ [])))
    × (shown (find_route second get (bytes "/user/home")) ≡ some (some 2, 10 ∷ [], none))
    × (shown (find_route second get (bytes "/shop")) ≡ none)
unfolding router
find_route_runs = (refl, refl, refl)

again_conflicts :
    (add_route second get (bytes "/user/home") (some 3) []).1 ≡ some (conflict (bytes "/user/home"))
unfolding router
again_conflicts = refl

first-AreTrees : AreTrees first
first-AreTrees = add_route-AreTrees [] get (bytes "/user/:id") (some 1) (10 ∷ []) tt

add_route-AreTrees_example : AreTrees first
add_route-AreTrees_example = add_route-AreTrees [] get (bytes "/user/:id") (some 1) (10 ∷ []) tt

add_route-IsFound_example : IsFound second get (bytes "/user/home") (some 2)
add_route-IsFound_example =
    add_route-IsFound first second get (bytes "/user/home") (some 2) [] first-AreTrees second_quiet
