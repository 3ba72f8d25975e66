-- ===== src/Web/RegexRouter/Tests.antt =====
-- Routes with a name, a regular expression and a wildcard; an expression matches itself alone, and
-- the empty one does not compile.
use go_study.Prelude.{
  ℕ, Option, none, some, List, [], ◌∷◌, ◌≡◌, ◌⊎◌, refl, true, false, Bytes, bytes, beq, lookup,
  insert,
}
use go_study.Web.Router.{trim_slashes, star_path}
use go_study.Web.RegexRouter.{Regexp, conflict, bad_regexp, param_after_reg, empty_segment}
use go_study.Web.RegexRouter.Routes.{Trees, add_route, find_route}
use go_study.Web.RegexRouter.Pattern.{route_params}
use go_study.Web.RegexRouter.Invariant.{AreRegexTrees, add_route-AreRegexTrees}
use go_study.Web.RegexRouter.Twice.{last_segment, add_route-add_route}
use go_study.Web.RegexRouter.Single.{served, find_route-add_route}

abbrev compile : Bytes → Option Bytes
compile [] = none
compile (b ∷ bs) = some (b ∷ bs)

abbrev literal : Regexp Bytes
literal = record { must_compile = compile; match_string = beq }

abbrev get_method : Bytes
get_method = bytes "GET"

abbrev mixed : Bytes
mixed = bytes "/u/:id(ab)/:x/*"

abbrev mixed_trees : Trees ℕ Bytes
mixed_trees = (add_route literal [] get_method mixed (some 7)).0

abbrev bound : Option (ℕ × Option (List (Bytes × Bytes)))
bound = some (7, some ((bytes "id", bytes "ab") ∷ (bytes "x", bytes "cd") ∷ []))

find_route-add_route_example :
    served (find_route literal mixed_trees get_method (bytes "/u/ab/cd/e/f")) ≡ bound
unfolding add_route find_route beq lookup insert trim_slashes route_params
find_route-add_route_example =
    find_route-add_route literal get_method mixed (bytes "/u/ab/cd/e/f") 7 mixed_trees refl refl
      refl

add_route-AreRegexTrees_example :
    AreRegexTrees (add_route literal mixed_trees get_method (bytes "/u/:id") (some 8)).0
unfolding add_route find_route beq lookup insert trim_slashes
add_route-AreRegexTrees_example =
    add_route-AreRegexTrees literal mixed_trees get_method (bytes "/u/:id") (some 8) (
      unfold add_route beq lookup insert in
      add_route-AreRegexTrees literal [] get_method mixed (some 7) tt)

wildcard_trees_eq :
    add_route literal mixed_trees get_method mixed (some 8)
    ≡ add_route literal [] get_method mixed (some 8)
unfolding add_route find_route beq lookup insert trim_slashes
wildcard_trees_eq = refl

abbrev plain_trees : Trees ℕ Bytes
plain_trees = (add_route literal [] get_method (bytes "/u") (some 1)).0

add_route-add_route_example :
    ((beq (last_segment (bytes "/u")) star_path ≡ false)
      × (add_route literal plain_trees get_method (bytes "/u") (some 2)
          ≡ (plain_trees, some (conflict (bytes "/u")))))
    ⊎ ((beq (last_segment (bytes "/u")) star_path ≡ true)
        × (add_route literal plain_trees get_method (bytes "/u") (some 2)
            ≡ add_route literal [] get_method (bytes "/u") (some 2))
        × ((add_route {H = ℕ} literal [] get_method (bytes "/u") (some 2)).1 ≡ none))
unfolding add_route find_route beq lookup insert trim_slashes
add_route-add_route_example =
    add_route-add_route literal (bytes "/u") 1 2 [] plain_trees get_method tt tt refl refl

unmatched : served (find_route literal mixed_trees get_method (bytes "/u/ba/cd/e")) ≡ none
unfolding add_route find_route beq lookup insert trim_slashes
unmatched = refl

wildcard_again : (add_route literal mixed_trees get_method mixed (some 8)).1 ≡ none
unfolding add_route find_route beq lookup insert trim_slashes
wildcard_again = refl

again :
    (add_route literal
      (add_route {H = ℕ} literal [] get_method (bytes "/u") (some 1)).0
      get_method
      (bytes "/u")
      (some 2)).1
    ≡ some (conflict (bytes "/u"))
unfolding add_route find_route beq lookup insert trim_slashes
again = refl

name_beside_expression :
    (add_route literal mixed_trees get_method (bytes "/u/:id") (some 8)).1
    ≡ some (param_after_reg (bytes ":id"))
unfolding add_route find_route beq lookup insert trim_slashes
name_beside_expression = refl

no_expression :
    (add_route {H = ℕ} literal [] get_method (bytes "/:id()") (some 8)).1
    ≡ some (bad_regexp (bytes ":id()"))
unfolding add_route find_route beq lookup insert trim_slashes
no_expression = refl

twice_slashed :
    (add_route {H = ℕ} literal [] get_method (bytes "/u//v") (some 8)).1
    ≡ some (empty_segment (bytes "/u//v"))
unfolding add_route find_route beq lookup insert trim_slashes
twice_slashed = refl
