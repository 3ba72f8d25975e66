-- ===== src/Rpc/Balance/Weighted/Weights.antt =====
-- rpc/homework2/loadbalance/roundrobin/weight_balancer.go: what a pick returns, and what it does to
-- the weights.
use go_study.Prelude.{
  ℕ, zero, suc, ◌+◌, ◌-◌, ◌%◌, ◌≤◌, ◌<◌, ◌≡◌, ◌⊎◌, inl, inr, refl, ◌∙◌, false, List, [], ◌∷◌,
  Option, none, some, ltb, arith, All, Bool-cases, ltb→lt, get_elem?, sym, ap, subst, map, ◌++◌,
}
use mathlib.Core.Option.{some-injective}
use go_study.Rpc.Balance.Weighted.{
  u32_mod, Conn, raise, raise_all, total_weight, select, lower, lower_at, pick,
}

not_ltb : (a b : ℕ) → ltb a b ≡ false → b ≤ a
not_ltb a b e = ground arith

one_more : (j : ℕ) → 1 + j ≡ suc j
one_more j = omega arith

module _ {C : Type 0} where
  -- The current weights, added up.
  abbrev pub current_sum : List (Conn C) → ℕ
  current_sum [] = 0
  current_sum (c ∷ conns) = c.current_weight + current_sum conns

  abbrev pub efficient_sum : List (Conn C) → ℕ
  efficient_sum [] = 0
  efficient_sum (c ∷ conns) = c.efficient_weight + efficient_sum conns

  total_weight_sum :
      (total : ℕ) (conns : List (Conn C))
      → total < u32_mod
      → total_weight total conns ≡ (total + efficient_sum conns) % u32_mod
  unfolding total_weight
  total_weight_sum total [] h = omega arith
  total_weight_sum total (c ∷ conns) h =
      omega (arith, total_weight_sum ((total + c.efficient_weight) % u32_mod) conns (omega arith))

  raise_all_sum :
      (conns : List (Conn C))
      → current_sum (raise_all conns) % u32_mod
        ≡ (current_sum conns + efficient_sum conns) % u32_mod
  unfolding raise_all raise
  raise_all_sum [] = refl
  raise_all_sum (c ∷ conns) = omega (arith, raise_all_sum conns)

  lower_at_sum :
      (total place : ℕ) (conns : List (Conn C)) (c : Conn C)
      → total < u32_mod
      → get_elem? conns place ≡ some c
      → (current_sum (lower_at total place conns) + total) % u32_mod ≡ current_sum conns % u32_mod
  unfolding lower_at lower
  lower_at_sum total place [] c h e = cc
  lower_at_sum total zero (d ∷ conns) c h e = omega arith
  lower_at_sum total (suc place) (d ∷ conns) c h e =
      omega (arith, lower_at_sum total place conns c h e)

  abbrev raised : Conn C → ℕ
  raised c = (raise c).current_weight

  -- What the search from a place on leads to: the start, if nothing behind it weighs more, or the
  -- best of what stands behind it.
  data Found (place weight next : ℕ) (conns : List (Conn C)) (result : ℕ) : Type 0 where
    stays :
        result ≡ place → All (λ c. raised c ≤ weight) conns → Found place weight next conns result
    moves :
        (j : ℕ) (d : Conn C)
        → result ≡ next + j
        → get_elem? conns j ≡ some d
        → weight ≤ raised d
        → All (λ c. raised c ≤ raised d) conns
        → Found place weight next conns result

  moves_on :
      (place weight next result : ℕ) (c : Conn C) (conns : List (Conn C))
      → weight < raised c
      → Found next (raised c) (suc next) conns result
      → Found place weight next (c ∷ conns) result
  moves_on place weight next result c conns less (stays e below) =
      moves zero c (omega arith) refl (omega arith) (omega arith, below)
  moves_on place weight next result c conns less (moves j d e at above below) =
      moves (suc j) d (omega arith) at (omega arith) (above, below)

  stays_on :
      (place weight next result : ℕ) (c : Conn C) (conns : List (Conn C))
      → raised c ≤ weight
      → Found place weight (suc next) conns result
      → Found place weight next (c ∷ conns) result
  stays_on place weight next result c conns more (stays e below) = stays e (more, below)
  stays_on place weight next result c conns more (moves j d e at above below) =
      moves (suc j) d (omega arith) at above (omega arith, below)

  select-Found :
      (place weight next : ℕ) (conns : List (Conn C))
      → Found place weight next conns (select place weight next conns)
  unfolding select
  select-Found place weight next [] = stays refl tt
  select-Found place weight next (c ∷ conns) = elim (Bool-cases (ltb weight (raised c))) [
    | inl less ↦ rw less (
        moves_on place weight next (select next (raised c) (suc next) conns) c conns
          (ltb→lt _ _ less) (select-Found next (raised c) (suc next) conns))
    | inr more ↦ rw more (
        stays_on place weight next (select place weight (suc next) conns) c conns (not_ltb _ _ more)
          (select-Found place weight (suc next) conns))
  ]

  -- The place that a pick ends at, and what stands there.
  pub record IsHeaviest (conns : List (Conn C)) (place : ℕ) (c : Conn C) : Type 0 where
    pub at_place : get_elem? conns place ≡ some c
    pub heaviest :
        All
          (λ d.
            (d.current_weight + d.efficient_weight) % u32_mod
            ≤ (c.current_weight + c.efficient_weight) % u32_mod)
          conns

  IsHeaviest-of :
      (c : Conn C) (conns : List (Conn C)) (place : ℕ)
      → Found 0 (raised c) 1 conns place
      → (d : Conn C) × IsHeaviest (c ∷ conns) place d
  unfolding raise
  IsHeaviest-of c conns place (stays e below) =
      (c, record { at_place = rw e refl; heaviest = (omega arith, below) })
  IsHeaviest-of c conns place (moves j d e at above below) =
      (d, record { at_place = rw (e ∙ one_more j) at; heaviest = (above, below) })

  raise_all-get_elem? :
      (conns : List (Conn C)) (k : ℕ) (c : Conn C)
      → get_elem? conns k ≡ some c
      → get_elem? (raise_all conns) k ≡ some (raise c)
  unfolding raise_all
  raise_all-get_elem? [] k c e = cc
  raise_all-get_elem? (d ∷ conns) zero c e = cc
  raise_all-get_elem? (d ∷ conns) (suc k) c e = raise_all-get_elem? conns k c e

  best_of :
      (conns : List (Conn C))
      → ((conns ≡ []) × (pick conns ≡ ([], none)))
        ⊎ ((place : ℕ) × (c : Conn C) × IsHeaviest conns place c
            × (pick conns ≡ (lower_at (total_weight 0 conns) place (raise_all conns), some c.sub)))
  unfolding pick
  best_of [] = inl (refl, refl)
  best_of (c ∷ conns) =
      let place = select 0 (raised c) 1 conns in
      let (d, best) = IsHeaviest-of c conns place (select-Found 0 (raised c) 1 conns) in
      inr (place, d, best, rw (best.at_place) refl)

  -- A connection with its share, and one that loses the total as well.
  abbrev pub with_share : Conn C → Conn C
  with_share d = record d { current_weight = (d.current_weight + d.efficient_weight) % u32_mod }

  abbrev pub paid : ℕ → Conn C → Conn C
  paid sum c = record c {
    current_weight = (c.current_weight + c.efficient_weight + (u32_mod - sum % u32_mod)) % u32_mod;
  }

  raise_share : (d : Conn C) → raise d ≡ with_share d
  unfolding raise
  raise_share d = refl

  raise_all-map : (conns : List (Conn C)) → raise_all conns ≡ map with_share conns
  unfolding raise_all raise
  raise_all-map [] = refl
  raise_all-map (c ∷ conns) = ap (λ l. with_share c ∷ l) (raise_all-map conns)

  lower-paid :
      (total sum : ℕ) (c : Conn C) → total ≡ sum % u32_mod → lower total (raise c) ≡ paid sum c
  unfolding lower raise
  lower-paid total sum c e = ap (λ n. record c { current_weight = n }) (omega (arith, e))

  total_of : (conns : List (Conn C)) → total_weight 0 conns ≡ efficient_sum conns % u32_mod
  total_of conns = omega (arith, total_weight_sum 0 conns (omega arith))

  -- The connections around a place, and what becomes of them.
  abbrev pub Around : List (Conn C) → List (Conn C) → ℕ → Conn C → Type 0
  Around conns after sum c =
      (before : List (Conn C)) × (behind : List (Conn C)) × (conns ≡ before ++ (c ∷ behind))
      × (after ≡ map with_share before ++ (paid sum c ∷ map with_share behind))

  lower_at-Around :
      (total sum place : ℕ) (conns : List (Conn C)) (c : Conn C)
      → total ≡ sum % u32_mod
      → get_elem? conns place ≡ some c
      → Around conns (lower_at total place (raise_all conns)) sum c
  unfolding lower_at raise_all
  lower_at-Around total sum place [] c e at = cc
  lower_at-Around total sum zero (d ∷ conns) c e at =
      let same = some-injective _ _ at in
      (
        [],
        conns,
        ap (λ x. x ∷ conns) same,
        ap (λ x. lower total (raise x) ∷ raise_all conns) same
            ∙ ap (λ x. x ∷ raise_all conns) (lower-paid total sum c e)
            ∙ ap (λ l. paid sum c ∷ l) (raise_all-map conns),
      )
  lower_at-Around total sum (suc place) (d ∷ conns) c e at =
      let (before, behind, whole, changed) = lower_at-Around total sum place conns c e at in
      (
        d ∷ before,
        behind,
        ap (λ l. d ∷ l) whole,
        ap (λ l. raise d ∷ l) changed
            ∙ ap (λ x. x ∷ (map with_share before ++ (paid sum c ∷ map with_share behind)))
                (raise_share d),
      )

  -- With no connection a pick fails. Otherwise it returns a connection whose current weight, with
  -- its efficient weight added, is no less than any other's so raised; every other connection has
  -- its efficient weight added to its current weight, and the one that is picked loses the sum of
  -- all efficient weights besides, all of it modulo 2^32; nothing else changes.
  pub pick-IsHeaviest :
      (conns : List (Conn C))
      → ((conns ≡ []) × (pick conns ≡ ([], none)))
        ⊎ ((place : ℕ) × (c : Conn C) × IsHeaviest conns place c
            × Around conns (pick conns).0 (efficient_sum conns) c
            × ((pick conns).1 ≡ some c.sub))
  pick-IsHeaviest conns = elim (best_of conns) [
    | inl none_left ↦ inl none_left
    | inr (place, c, best, h) ↦ inr (
      place,
      c,
      best,
      subst (λ after. Around conns after (efficient_sum conns) c)
          (sym (ap (λ (r : List (Conn C) × Option C). r.0) h))
          (lower_at-Around (total_weight 0 conns) (efficient_sum conns) place conns c
            (total_of conns) best.at_place),
      ap (λ (r : List (Conn C) × Option C). r.1) h,
    )
  ]

  -- A pick keeps the sum of the current weights, up to the wrap-around: what the connections gain
  -- is what the one that is picked loses.
  pub current_sum-pick :
      (conns : List (Conn C)) → current_sum (pick conns).0 % u32_mod ≡ current_sum conns % u32_mod
  current_sum-pick conns = elim (best_of conns) [
    | inl (e, h) ↦ rw (h) (rw e refl)
    | inr (place, c, best, h) ↦
        let total = total_weight_sum 0 conns (omega arith) in
        let lowered =
          lower_at_sum (total_weight 0 conns) place (raise_all conns) (raise c) (omega arith)
            (raise_all-get_elem? conns place c best.at_place) in
        rw h (omega (arith, raise_all_sum conns))
  ]
