-- ===== src/Web/RegexRouter/Twice.antt =====
-- web/homework1/route.go: registering a route a second time.
use go_study.Prelude.{
  ℕ, true, false, Option, none, some, List, [], ◌∷◌, ◌≡◌, ◌⊎◌, inl, inr, refl, sym, ap, ◌∙◌, subst,
  ok, Bytes, beq, beq_refl, lookup, insert, lookup-insert, Bool-cases, Option-cases, Result-cases,
}
use go_study.Web.Router.{star_path, root_path, tail_bytes, split_slash}
use go_study.Web.RegexRouter.{
  Regexp, Panic, conflict, NodeType, static_node, is_any, Node, node, Slot, info, set_slot,
}
use go_study.Web.RegexRouter.Nodes.{child_or_create}
use go_study.Web.RegexRouter.Routes.{
  Trees, register, get_root, walk, add_to_root, add_route, check_path_format, has_conflict,
}
use go_study.Web.RegexRouter.Shape.{IsTree, type_at}
use go_study.Web.RegexRouter.Invariant.{
  AreRegexTrees, get_root-IsTree, child_or_create-Fits, node_type,
}
use go_study.Web.RegexRouter.Named.{IsNamed, name_type}
use go_study.Web.RegexRouter.Reached.{
  AreNamed, get_root-IsNamed, child_or_create-Leads, child_or_create-path,
}
use go_study.Web.RegexRouter.Placed.{info-set_slot}
use go_study.Web.RegexRouter.Again.{insert-insert, set_slot-set_slot, child_or_create-IsFoundAgain}

-- The last segment of a path.
abbrev last_of : Bytes → List Bytes → Bytes
last_of s [] = s
last_of s (seg ∷ segs) = last_of seg segs

abbrev pub last_segment : Bytes → Bytes
last_segment path = last_of root_path (split_slash (tail_bytes path))

module _ {H R : Type 0} (rx : Regexp R) (path : Bytes) (h h' : H) where
  abbrev pub first : Node H R → Node H R × Option Panic
  first n = register path (some h) n

  abbrev pub second : Node H R → Node H R × Option Panic
  second n = register path (some h') n

  abbrev pub both : Node H R → Node H R × Option Panic
  both n = second (first n).0

  register_path : (n : Node H R) → (info (first n).0).path ≡ (info n).path
  unfolding register
  register_path (node i c s p r) = elim (Bool-cases (has_conflict i.handler i.path)) [
    | inl e ↦ rw (e, register) refl
    | inr e ↦ rw (e, register) refl
  ]

  walk_path :
      (segs : List Bytes) (n : Node H R) → (info (walk rx path segs first n).0).path ≡ (info n).path
  unfolding walk
  walk_path [] n = register_path n
  walk_path ([] ∷ segs) n = refl
  walk_path ((b ∷ bs) ∷ segs) n = elim (Result-cases (child_or_create rx (b ∷ bs) n)) [
    | inl ((slot, child), e) ↦
        rw (e, walk) (ap (λ i. i.path) (info-set_slot slot (walk rx path segs first child).0 n))
    | inr (q, e) ↦ rw (e, walk) refl
  ]

  walk_step :
      (b : ℕ) (bs : Bytes) (segs : List Bytes) (leaf : Node H R → Node H R × Option Panic)
      (n : Node H R) (slot : Slot) (child : Node H R)
      → child_or_create rx (b ∷ bs) n ≡ ok (slot, child)
      → walk rx path ((b ∷ bs) ∷ segs) leaf n
        ≡ (set_slot slot (walk rx path segs leaf child).0 n, (walk rx path segs leaf child).1)
  unfolding walk
  walk_step b bs segs leaf n slot child e = rw (e, walk) refl

  -- Two walks along the same segments are one.
  walk-walk :
      (segs : List Bytes) (n : Node H R)
      → (walk rx path segs first n).1 ≡ none
      → walk rx path segs second (walk rx path segs first n).0 ≡ walk rx path segs both n
  unfolding walk
  walk-walk [] n quiet = refl
  walk-walk ([] ∷ segs) n quiet = cc
  walk-walk ((b ∷ bs) ∷ segs) n quiet = elim (Result-cases (child_or_create rx (b ∷ bs) n)) [
    | inl ((slot, child), e) ↦
        let v = (walk rx path segs first child).0 in
        let again =
          child_or_create-IsFoundAgain rx (b ∷ bs) n (slot, child) e v (walk_path segs child) in
        let rest = walk-walk segs child (rw (e, walk) at quiet) in
        ap (λ (t : Node H R × Option Panic). walk rx path ((b ∷ bs) ∷ segs) second t.0)
          (walk_step b bs segs first n slot child e)
        ∙ walk_step b bs segs second (set_slot slot v n) slot v again
        ∙ ap (λ (t : Node H R × Option Panic). (set_slot slot t.0 (set_slot slot v n), t.1)) rest
        ∙ ap (λ m. (m, (walk rx path segs both child).1))
            (set_slot-set_slot slot v (walk rx path segs both child).0 n)
        ∙ sym (walk_step b bs segs both n slot child e)
    | inr (q, e) ↦ cc (rw (e, walk) at quiet)
  ]

  -- The second registration is refused, or, at a wildcard, is as if it were the only one.
  abbrev pub Repeats : Bytes → (ran ran' ran_both : Node H R × Option Panic) → Type 0
  Repeats last ran ran' ran_both =
      ((beq last star_path ≡ false) × (ran_both ≡ (ran.0, some (conflict path))))
      ⊎ ((beq last star_path ≡ true) × (ran_both ≡ ran') × (ran'.1 ≡ none))

  register-Repeats :
      (last : Bytes) (n : Node H R)
      → beq (info n).path star_path ≡ beq last star_path
      → (first n).1 ≡ none
      → Repeats last (first n) (second n) (both n)
  unfolding register
  register-Repeats last (node i c s p r) same quiet =
      elim (Bool-cases (has_conflict i.handler i.path)) [
        | inl taken ↦ cc (rw (taken, register) at quiet)
        | inr free ↦ elim (Bool-cases (beq i.path star_path)) [
          | inl any ↦
              inr (sym same ∙ any, rw (free, register) (rw any refl), rw (free, register) refl)
          | inr plain ↦ inl (sym same ∙ plain, rw (free, register) (rw plain refl))
        ]
      ]

  walk-Repeats :
      (segs : List Bytes) (last : Bytes) (t : NodeType) (n : Node H R)
      → IsTree t n
      → IsNamed n
      → beq (info n).path star_path ≡ beq last star_path
      → (walk rx path segs first n).1 ≡ none
      → Repeats
          (last_of last segs)
          (walk rx path segs first n)
          (walk rx path segs second n)
          (walk rx path segs both n)
  unfolding walk
  walk-Repeats [] last t n tree named same quiet = register-Repeats last n same quiet
  walk-Repeats ([] ∷ segs) last t n tree named same quiet = cc
  walk-Repeats ((b ∷ bs) ∷ segs) last t n tree named same quiet =
      elim (Result-cases (child_or_create rx (b ∷ bs) n)) [
        | inl ((slot, child), e) ↦
            let on =
              walk-Repeats segs (b ∷ bs) (type_at slot) child
                (child_or_create-Fits rx (b ∷ bs) t n (slot, child) tree e).0
                (child_or_create-Leads rx (b ∷ bs) n (slot, child) named e).0
                (child_or_create-path rx (b ∷ bs) t n slot child tree named e)
                (rw (e, walk) at quiet) in
            elim on [
              | inl (plain, refused) ↦ inl (
                plain,
                rw (e, walk)
                    (ap (λ (t : Node H R × Option Panic). (set_slot slot t.0 n, t.1)) refused),
              )
              | inr (any, alone, fine) ↦ inr (
                any,
                rw (e, walk)
                    (ap (λ (t : Node H R × Option Panic). (set_slot slot t.0 n, t.1)) alone),
                rw (e, walk) fine,
              )
            ]
        | inr (q, e) ↦ cc (rw (e, walk) at quiet)
      ]

  root_same :
      (root : Node H R)
      → IsTree static_node root
      → IsNamed root
      → beq (info root).path star_path ≡ beq root_path star_path
  unfolding beq
  root_same root tree named = name_type root named ∙ ap is_any (node_type rx static_node root tree)

  add_to_root-Repeats :
      (root : Node H R)
      → IsTree static_node root
      → IsNamed root
      → beq path root_path ≡ false
      → (add_to_root rx path (some h) root).1 ≡ none
      → Repeats
          (last_segment path)
          (add_to_root rx path (some h) root)
          (add_to_root rx path (some h') root)
          (add_to_root rx path (some h') (add_to_root rx path (some h) root).0)
  unfolding add_to_root
  add_to_root-Repeats root tree named not_root quiet =
      let segs = split_slash (tail_bytes path) in
      rw (not_root, add_to_root)
        (subst
          (λ ran_both.
            Repeats (last_segment path) (walk rx path segs first root)
              (walk rx path segs second root) ran_both)
          (sym (walk-walk segs root (rw (not_root, add_to_root) at quiet)))
          (walk-Repeats segs root_path static_node root tree named (root_same root tree named)
            (rw (not_root, add_to_root) at quiet)))

  add_route_checked :
      (ts : Trees H R) (method : Bytes) (handler : Option H)
      → check_path_format path ≡ none
      → let ran = add_to_root rx path handler (get_root method ts) in
        add_route rx ts method path handler ≡ (insert method ran.0 ts, ran.1)
  unfolding add_route
  add_route_checked ts method handler good = rw (good, add_route) refl

  get_root-insert :
      (method : Bytes) (root : Node H R) (ts : Trees H R)
      → get_root method (insert method root ts) ≡ root
  unfolding get_root
  get_root-insert method root ts =
      let found : lookup method (insert method root ts) ≡ some root =
        lookup-insert method method root ts ∙ rw (beq_refl method) refl in
      rw (found, get_root) refl

  checked :
      (ts ts' : Trees H R) (method : Bytes)
      → add_route rx ts method path (some h) ≡ (ts', none)
      → check_path_format path ≡ none
  unfolding add_route
  checked ts ts' method e = elim (Option-cases (check_path_format path)) [
    | inl good ↦ good
    | inr (p, bad) ↦ cc (rw (bad, add_route) at e)
  ]

  -- A route, but "/", that was registered in well-shaped and well-named trees without a panic and is
  -- registered again with another handler: if its last segment is not "*", the second registration
  -- ends in the panic of a conflict and changes nothing; if it is, it overwrites the first, and the
  -- trees are those of the second registration alone, which would not have panicked either.
  pub add_route-add_route :
      (ts ts' : Trees H R) (method : Bytes)
      → AreRegexTrees ts
      → AreNamed ts
      → add_route rx ts method path (some h) ≡ (ts', none)
      → beq path root_path ≡ false
      → ((beq (last_segment path) star_path ≡ false)
          × (add_route rx ts' method path (some h') ≡ (ts', some (conflict path))))
        ⊎ ((beq (last_segment path) star_path ≡ true)
            × (add_route rx ts' method path (some h') ≡ add_route rx ts method path (some h'))
            × ((add_route rx ts method path (some h')).1 ≡ none))
  add_route-add_route ts ts' method shaped named e not_root =
      let good = checked ts ts' method e in
      let root = get_root method ts in
      let ran = add_to_root rx path (some h) root in
      let e' = sym (add_route_checked ts method (some h) good) ∙ e in
      let stored : insert method ran.0 ts ≡ ts' = ap (λ (t : Trees H R × Option Panic). t.0) e' in
      let quiet : ran.1 ≡ none = ap (λ (t : Trees H R × Option Panic). t.1) e' in
      let root_eq : get_root method ts' ≡ ran.0 =
        ap (get_root method) (sym stored) ∙ get_root-insert method ran.0 ts in
      let second_eq =
        add_route_checked ts' method (some h') good
        ∙ ap (λ n. let t = add_to_root rx path (some h') n in (insert method t.0 ts', t.1))
            root_eq in
      let again =
        add_to_root-Repeats root (get_root-IsTree method ts shaped)
          (get_root-IsNamed method ts named) not_root quiet in
      elim again [
        | inl (plain, refused) ↦ inl (
          plain,
          second_eq
              ∙ ap (λ (t : Node H R × Option Panic). (insert method t.0 ts', t.1)) refused
              ∙ ap (λ l. (l, some (conflict path)))
                  (ap (insert method ran.0) (sym stored)
                    ∙ insert-insert method ran.0 ran.0 ts
                    ∙ stored),
        )
        | inr (any, alone, fine) ↦
            let t2 = add_to_root rx path (some h') root in
            inr (
              any,
              second_eq
                  ∙ ap (λ (t : Node H R × Option Panic). (insert method t.0 ts', t.1)) alone
                  ∙ ap (λ l. (l, t2.1))
                      (ap (insert method t2.0) (sym stored) ∙ insert-insert method ran.0 t2.0 ts)
                  ∙ sym (add_route_checked ts method (some h') good),
              ap (λ (t : Trees H R × Option Panic). t.1)
                    (add_route_checked ts method (some h') good)
                  ∙ fine,
            )
      ]
