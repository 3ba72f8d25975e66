-- ===== src/Rpc/Balance/RoundRobin.antt =====
-- rpc/homework2/loadbalance/roundrobin/balancer.go
use native.Mathlib.Nat.{mod-lt}
use go_study.Prelude.{
  ℕ, zero, suc, ◌+◌, ◌%◌, ◌^◌, ◌<◌, ◌≡◌, refl, sym, ap, ◌∙◌, subst, Bool, true, false, List, [],
  ◌∷◌, Option, none, some, ◌⊎◌, inl, inr, length, get_elem?, All, if◌then◌else◌, arith, Bool-cases,
}

pub record Instance (C D : Type 0) : Type 0 where
  pub sub : C
  pub address : D

pub record Picker (C D I : Type 0) : Type 0 where
  pub ins : List (Instance C D)
  pub cnt : ℕ
  pub filter : I → D → Bool

abbrev pub u64_mod : ℕ
u64_mod = 2 ^ 64

module _ {C D : Type 0} where
  -- The loop that collects the candidates.
  unfoldable pub candidates : (D → Bool) → List (Instance C D) → List (Instance C D)
  candidates f [] = []
  candidates f (i ∷ ins) = let rest = candidates f ins in if f i.address then i ∷ rest else rest

  abbrev pub sub_of : Option (Instance C D) → Option C
  sub_of none = none
  sub_of (some i) = some i.sub

  -- The loop of `PickerBuilder.Build`.
  unfoldable pub instances : List (C × D) → List (Instance C D)
  instances [] = []
  instances ((sub, address) ∷ ready) = record { sub = sub; address = address } ∷ instances ready

module _ {C D I : Type 0} where
  -- `atomic.AddUint64`, then the index modulo the number of candidates.
  unfoldable pub pick_from : Picker C D I → List (Instance C D) → Picker C D I × Option C
  pick_from p [] = (p, none)
  pick_from p (c ∷ cs) =
      let cnt = (p.cnt + 1) % u64_mod in
      (record p { cnt = cnt }, sub_of (get_elem? (c ∷ cs) (cnt % length (c ∷ cs))))

  -- `Picker.Pick`
  unfoldable pub pick : Picker C D I → I → Picker C D I × Option C
  unfolding candidates pick_from
  pick p info = pick_from p (candidates (p.filter info) p.ins)

  -- `PickerBuilder.Build`
  unfoldable pub build : (I → D → Bool) → List (C × D) → Picker C D I
  unfolding instances
  build filter ready = record { ins = instances ready; cnt = 0; filter = filter }

  -- So many picks, one after the other.
  unfoldable pub pick_times : ℕ → Picker C D I → I → Picker C D I
  unfolding pick
  pick_times zero p info = p
  pick_times (suc k) p info = pick_times k (pick p info).0 info

module _ {ℓ} {A : Type ℓ} where
  get_elem?_within : (xs : List A) (k : ℕ) → k < length xs → (x : A) × (get_elem? xs k ≡ some x)
  get_elem?_within [] k h = absurd (omega arith)
  get_elem?_within (x ∷ xs) zero h = (x, refl)
  get_elem?_within (x ∷ xs) (suc k) h = get_elem?_within xs k (omega arith)

some-inj {ℓ} : {A : Type ℓ} {a b : A} → ◌≡◌ {A = Option A} (some a) (some b) → a ≡ b
some-inj e = cc

module _ {C D : Type 0} (f : D → Bool) where
  candidates-none :
      (ins : List (Instance C D)) → candidates f ins ≡ [] → All (λ i. f i.address ≡ false) ins
  unfolding candidates
  candidates-none [] e = tt
  candidates-none (i ∷ ins) e = elim (Bool-cases (f i.address)) [
    | inl fits ↦ cc (rw (fits, candidates) at e)
    | inr unfit ↦ (unfit, candidates-none ins (rw (unfit, candidates) at e))
  ]

  abbrev IsAt : List (Instance C D) → Instance C D → Type 0
  IsAt ins i = (j : ℕ) × (get_elem? ins j ≡ some i) × (f i.address ≡ true)

  cons-IsAt : (x i : Instance C D) (ins : List (Instance C D)) → IsAt ins i → IsAt (x ∷ ins) i
  cons-IsAt x i ins (j, at, fits) = (suc j, at, fits)

  candidates-IsAt :
      (ins : List (Instance C D)) (k : ℕ) (i : Instance C D)
      → get_elem? (candidates f ins) k ≡ some i
      → IsAt ins i
  unfolding candidates
  candidates-IsAt [] k i e = cc
  candidates-IsAt (x ∷ ins) zero i e = elim (Bool-cases (f x.address)) [
    | inl fits ↦
        let same : x ≡ i = some-inj (rw (fits, candidates) at e) in
        (zero, ap some same, subst (λ y. f y.address ≡ true) same fits)
    | inr unfit ↦ cons-IsAt x i ins (candidates-IsAt ins zero i (rw (unfit, candidates) at e))
  ]
  candidates-IsAt (x ∷ ins) (suc k) i e = elim (Bool-cases (f x.address)) [
    | inl fits ↦ cons-IsAt x i ins (candidates-IsAt ins k i (rw (fits, candidates) at e))
    | inr unfit ↦ cons-IsAt x i ins (candidates-IsAt ins (suc k) i (rw (unfit, candidates) at e))
  ]

module _ {C D I : Type 0} where
  -- A pick either finds that the filter refuses every instance, and leaves the picker alone, or
  -- returns the connection of an instance that the filter accepts, and counts one on.
  pub pick-outcome :
      (p : Picker C D I) (info : I)
      → (All (λ i. p.filter info i.address ≡ false) p.ins × (pick p info ≡ (p, none)))
        ⊎ ((i : Instance C D) × (j : ℕ) × (get_elem? p.ins j ≡ some i)
            × (p.filter info i.address ≡ true)
            × (pick p info ≡ (record p { cnt = (p.cnt + 1) % u64_mod }, some i.sub)))
  unfolding pick pick_from
  pick-outcome p info = outcome (candidates (p.filter info) p.ins) refl
    where
      outcome :
          (cs : List (Instance C D))
          → candidates (p.filter info) p.ins ≡ cs
          → (All (λ i. p.filter info i.address ≡ false) p.ins × (pick_from p cs ≡ (p, none)))
            ⊎ ((i : Instance C D) × (j : ℕ) × (get_elem? p.ins j ≡ some i)
                × (p.filter info i.address ≡ true)
                × (pick_from p cs ≡ (record p { cnt = (p.cnt + 1) % u64_mod }, some i.sub)))
      outcome [] e = inl (candidates-none (p.filter info) p.ins e, refl)
      outcome (c ∷ cs) e =
          let k = (p.cnt + 1) % u64_mod % length (c ∷ cs) in
          let (i, at) =
            get_elem?_within (c ∷ cs) k (mod-lt ((p.cnt + 1) % u64_mod) (omega arith)) in
          let (j, place, fits) =
            candidates-IsAt (p.filter info) p.ins k i
              (subst (λ l. get_elem? l k ≡ some i) (sym e) at) in
          inr (i, j, place, fits, rw at refl)

  -- A pick while the counter is below its bound.
  pick_next :
      (p : Picker C D I) (info : I) (c : Instance C D) (cs : List (Instance C D))
      → candidates (p.filter info) p.ins ≡ c ∷ cs
      → p.cnt + 1 < u64_mod
      → pick p info ≡ (
        record p { cnt = p.cnt + 1 },
        sub_of (get_elem? (c ∷ cs) ((p.cnt + 1) % length (c ∷ cs))),
      )
  unfolding pick pick_from
  pick_next p info c cs e h = rw e (rw small refl)
    where
      small : (p.cnt + 1) % u64_mod ≡ p.cnt + 1
      small = omega arith

  pick_times_counts :
      (k : ℕ) (p : Picker C D I) (info : I) (c : Instance C D) (cs : List (Instance C D))
      → candidates (p.filter info) p.ins ≡ c ∷ cs
      → p.cnt + k < u64_mod
      → pick_times k p info ≡ record p { cnt = p.cnt + k }
  unfolding pick_times
  pick_times_counts zero p info c cs e h = ap (λ n. record p { cnt = n }) (omega arith)
  pick_times_counts (suc k) p info c cs e h = rw (pick_next p info c cs e (omega arith)) (
      pick_times_counts k (record p { cnt = p.cnt + 1 }) info c cs e (omega arith)
      ∙ ap (λ n. record p { cnt = n }) (omega arith))

  -- While the counter does not wrap around, the picks go round: after `k` picks the next one counts
  -- one further and returns the connection of the candidate at the place `cnt + k + 1`, taken modulo
  -- their number, so that each pick is one candidate further on than the one before.
  pub pick-pick_times :
      (k : ℕ) (p : Picker C D I) (info : I) (c : Instance C D) (cs : List (Instance C D))
      → candidates (p.filter info) p.ins ≡ c ∷ cs
      → p.cnt + k + 1 < u64_mod
      → (i : Instance C D) × (get_elem? (c ∷ cs) ((p.cnt + k + 1) % length (c ∷ cs)) ≡ some i)
        × (pick (pick_times k p info) info ≡ (record p { cnt = p.cnt + k + 1 }, some i.sub))
  pick-pick_times k p info c cs e h =
      let place = (p.cnt + k + 1) % length (c ∷ cs) in
      let (i, at) = get_elem?_within (c ∷ cs) place (mod-lt (p.cnt + k + 1) (omega arith)) in
      (
        i,
        at,
        ap (λ q. pick q info) (pick_times_counts k p info c cs e (omega arith))
            ∙ pick_next (record p { cnt = p.cnt + k }) info c cs e (omega arith)
            ∙ ap (λ o. (record p { cnt = p.cnt + k + 1 }, sub_of o)) at,
      )
