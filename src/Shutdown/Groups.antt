-- ===== src/Shutdown/Groups.antt =====
-- A loop that starts a goroutine for each of its elements, with a sync.WaitGroup: Add(1) before each
-- start, Done at each end, and Wait behind the loop.
use go_study.Prelude.{
  ℕ, zero, suc, ◌+◌, ◌-◌, ◌≡◌, refl, inl, inr, Bool, true, false, Option, none, some, List, [], ◌∷◌,
  arith, ◌==◌, ◌≢◌, ==_iff, replicate, All, Option-cases, ◌⊎◌, sym, ◌∙◌, subst,
}
use mathlib.Core.Option.{some-injective}

pub data Task : Type 0 where
  fresh running finished : Task

pub record Group : Type 0 where
  pub counter : ℕ
  pub tasks : List Task

abbrev pub new_group : ℕ → Group
new_group n = record { counter = 0; tasks = replicate n fresh }

-- The next element of the loop.
unfoldable pub start_next : List Task → Option (List Task)
start_next [] = none
start_next (fresh ∷ ts) = some (running ∷ ts)
start_next (running ∷ ts) = elim (start_next ts) [ none ↦ none | some us ↦ some (running ∷ us) ]
start_next (finished ∷ ts) = elim (start_next ts) [ none ↦ none | some us ↦ some (finished ∷ us) ]

unfoldable pub end_at : ℕ → List Task → Option (List Task)
end_at i [] = none
end_at zero (fresh ∷ ts) = none
end_at zero (running ∷ ts) = some (finished ∷ ts)
end_at zero (finished ∷ ts) = none
end_at (suc i) (t ∷ ts) = elim (end_at i ts) [ none ↦ none | some us ↦ some (t ∷ us) ]

-- `wg.Add(1)` and `go`
unfoldable pub spawn : Group → Option Group
unfolding start_next
spawn g = elim (start_next g.tasks) [
  | none ↦ none
  | some ts ↦ some (record { counter = g.counter + 1; tasks = ts })
]

-- `wg.Done()`
unfoldable pub finish : ℕ → Group → Option Group
unfolding end_at
finish i g = elim (end_at i g.tasks) [
  | none ↦ none
  | some ts ↦ some (record { counter = g.counter - 1; tasks = ts })
]

-- `wg.Wait()`, when the loop has started all.
unfoldable pub pass : Group → Bool
unfolding start_next
pass g = elim (start_next g.tasks) [ none ↦ g.counter == 0 | some ts ↦ false ]

abbrev pub running_tasks : List Task → ℕ
running_tasks [] = 0
running_tasks (fresh ∷ ts) = running_tasks ts
running_tasks (running ∷ ts) = suc (running_tasks ts)
running_tasks (finished ∷ ts) = running_tasks ts

-- What is left to do: two steps for a task that has not begun, one for one that runs.
abbrev pub work : List Task → ℕ
work [] = 0
work (fresh ∷ ts) = 2 + work ts
work (running ∷ ts) = 1 + work ts
work (finished ∷ ts) = work ts

-- The counter counts the tasks that run.
abbrev pub IsCounted : Group → Type 0
IsCounted g = g.counter ≡ running_tasks g.tasks

abbrev pub IsFinished : Task → Type 0
IsFinished t = t ≡ finished

abbrev pub IsFresh : Task → Type 0
IsFresh t = t ≡ fresh

ℕ-cases : (n : ℕ) → (n ≡ 0) ⊎ ((m : ℕ) × (n ≡ suc m))
ℕ-cases zero = inl refl
ℕ-cases (suc n) = inr (n, refl)

start_next-running_tasks :
    (ts us : List Task)
    → start_next ts ≡ some us
    → (running_tasks us ≡ suc (running_tasks ts)) × (work ts ≡ suc (work us))
unfolding start_next
start_next-running_tasks [] us e = absurd (ground (arith, e))
start_next-running_tasks (fresh ∷ ts) us e = ground (arith, e)
start_next-running_tasks (running ∷ ts) us e = elim (Option-cases (start_next ts)) [
  | inl stuck ↦ absurd (ground (arith, e, stuck))
  | inr (vs, found) ↦ ground (arith, e, found, start_next-running_tasks ts vs found)
]
start_next-running_tasks (finished ∷ ts) us e = elim (Option-cases (start_next ts)) [
  | inl stuck ↦ absurd (ground (arith, e, stuck))
  | inr (vs, found) ↦ ground (arith, e, found, start_next-running_tasks ts vs found)
]

end_at-running_tasks :
    (i : ℕ) (ts us : List Task)
    → end_at i ts ≡ some us
    → (running_tasks ts ≡ suc (running_tasks us)) × (work ts ≡ suc (work us))
unfolding end_at
end_at-running_tasks i [] us e = absurd (ground (arith, e))
end_at-running_tasks zero (fresh ∷ ts) us e = absurd (ground (arith, e))
end_at-running_tasks zero (running ∷ ts) us e = ground (arith, e)
end_at-running_tasks zero (finished ∷ ts) us e = absurd (ground (arith, e))
end_at-running_tasks (suc i) (t ∷ ts) us e = elim (Option-cases (end_at i ts)) [
  | inl stuck ↦ absurd (ground (arith, e, stuck))
  | inr (vs, found) ↦ ground (arith, e, found, end_at-running_tasks i ts vs found)
]

-- What spawning and finishing do to the work that is left; the counter stays right.
abbrev pub IsProgress : Group → Group → Type 0
IsProgress g h = (IsCounted g → IsCounted h) × (work g.tasks ≡ suc (work h.tasks))

pub spawn-IsProgress : (g h : Group) → spawn g ≡ some h → IsProgress g h
unfolding spawn
spawn-IsProgress g h e = elim (Option-cases (start_next g.tasks)) [
  | inl stuck ↦ absurd (ground (arith, e, stuck))
  | inr (ts, found) ↦
      let (count, less) = start_next-running_tasks g.tasks ts found in
      let made : spawn g ≡ some (record { counter = g.counter + 1; tasks = ts }) =
        rw (found, spawn) refl in
      subst (IsProgress g) (some-injective _ _ (sym made ∙ e))
        ((λ counted. omega (arith, counted, count)), less)
]

pub finish-IsProgress : (i : ℕ) (g h : Group) → finish i g ≡ some h → IsProgress g h
unfolding finish
finish-IsProgress i g h e = elim (Option-cases (end_at i g.tasks)) [
  | inl stuck ↦ absurd (ground (arith, e, stuck))
  | inr (ts, found) ↦
      let (count, less) = end_at-running_tasks i g.tasks ts found in
      let made : finish i g ≡ some (record { counter = g.counter - 1; tasks = ts }) =
        rw (found, finish) refl in
      subst (IsProgress g) (some-injective _ _ (sym made ∙ e))
        ((λ counted. omega (arith, counted, count)), less)
]

-- All have begun, and none runs.
none_left : (ts : List Task) → start_next ts ≡ none → running_tasks ts ≡ 0 → All IsFinished ts
unfolding start_next
none_left [] begun idle = tt
none_left (fresh ∷ ts) begun idle = absurd (ground (arith, begun))
none_left (running ∷ ts) begun idle = absurd (omega (arith, idle))
none_left (finished ∷ ts) begun idle = elim (Option-cases (start_next ts)) [
  | inl rest ↦ (refl, none_left ts rest idle)
  | inr (us, e) ↦ absurd (ground (arith, e, begun))
]

pass-all : (g : Group) → start_next g.tasks ≡ none → pass g ≡ (g.counter == 0)
unfolding pass
pass-all g begun = rw (begun, pass) refl

-- Wait returns only when every task has ended.
pub pass-IsFinished : (g : Group) → IsCounted g → pass g ≡ true → All IsFinished g.tasks
unfolding pass
pass-IsFinished g counted e = elim (Option-cases (start_next g.tasks)) [
  | inl begun ↦
      none_left g.tasks begun (sym counted ∙ (==_iff g.counter 0).0 (sym (pass-all g begun) ∙ e))
  | inr (ts, found) ↦ absurd (ground (arith, e, found))
]

running-end_at :
    (ts : List Task) (n : ℕ)
    → running_tasks ts ≡ suc n
    → (i : ℕ) × (us : List Task) × (end_at i ts ≡ some us)
unfolding end_at
running-end_at [] n e = absurd (omega (arith, e))
running-end_at (running ∷ ts) n e = (0, finished ∷ ts, refl)
running-end_at (fresh ∷ ts) n e =
    let (i, us, there) = running-end_at ts n e in (suc i, fresh ∷ us, rw there refl)
running-end_at (finished ∷ ts) n e =
    let (i, us, there) = running-end_at ts n e in (suc i, finished ∷ us, rw there refl)

-- A group that Wait does not pass can go on.
pub pass-goes_on :
    (g : Group)
    → IsCounted g
    → pass g ≡ false
    → ((h : Group) × (spawn g ≡ some h)) ⊎ ((i : ℕ) × (h : Group) × (finish i g ≡ some h))
unfolding pass spawn finish
pass-goes_on g counted e = elim (Option-cases (start_next g.tasks)) [
  | inr (ts, found) ↦ inl (record { counter = g.counter + 1; tasks = ts }, rw (found, spawn) refl)
  | inl begun ↦ elim (ℕ-cases (running_tasks g.tasks)) [
    | inl idle ↦ absurd (ground (arith, pass-all g begun, e, idle, counted))
    | inr (n, some_left) ↦
        let (i, ts, there) = running-end_at g.tasks n some_left in
        inr (i, record { counter = g.counter - 1; tasks = ts }, rw (there, finish) refl)
  ]
]

pub fresh-end_at : (i : ℕ) (ts us : List Task) → All IsFresh ts → end_at i ts ≢ some us
unfolding end_at
fresh-end_at i [] us h e = ground (arith, e)
fresh-end_at i (running ∷ ts) us h e = ground (arith, h)
fresh-end_at i (finished ∷ ts) us h e = ground (arith, h)
fresh-end_at zero (fresh ∷ ts) us h e = ground (arith, e)
fresh-end_at (suc i) (fresh ∷ ts) us (h, hs) e = elim (Option-cases (end_at i ts)) [
  | inl stuck ↦ ground (arith, e, stuck)
  | inr (vs, found) ↦ fresh-end_at i ts vs hs found
]

pub finished-end_at : (i : ℕ) (ts us : List Task) → All IsFinished ts → end_at i ts ≢ some us
unfolding end_at
finished-end_at i [] us h e = ground (arith, e)
finished-end_at i (running ∷ ts) us h e = ground (arith, h)
finished-end_at i (fresh ∷ ts) us h e = ground (arith, h)
finished-end_at zero (finished ∷ ts) us h e = ground (arith, e)
finished-end_at (suc i) (finished ∷ ts) us (h, hs) e = elim (Option-cases (end_at i ts)) [
  | inl stuck ↦ ground (arith, e, stuck)
  | inr (vs, found) ↦ finished-end_at i ts vs hs found
]

pub new_group-IsFresh : (n : ℕ) → All IsFresh (new_group n).tasks
new_group-IsFresh zero = tt
new_group-IsFresh (suc n) = (refl, new_group-IsFresh n)

pub new_group-IsCounted : (n : ℕ) → IsCounted (new_group n)
new_group-IsCounted n = go n
  where
    go : (n : ℕ) → 0 ≡ running_tasks (replicate n fresh)
    go zero = refl
    go (suc n) = go n

pub pass-spawn : (g : Group) → pass g ≡ true → spawn g ≡ none
unfolding pass spawn
pass-spawn g e = elim (Option-cases (start_next g.tasks)) [
  | inl begun ↦ rw (begun, spawn) refl
  | inr (ts, found) ↦ absurd (ground (arith, e, found))
]
