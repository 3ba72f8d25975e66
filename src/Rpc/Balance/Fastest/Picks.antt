-- ===== src/Rpc/Balance/Fastest/Picks.antt =====
-- rpc/homework2/loadbalance/fastest/balancer.go: what a pick returns.
use go_study.Prelude.{
  ℕ, suc, ◌≤◌, ◌<◌, ◌≡◌, ◌⊎◌, inl, inr, refl, sym, subst, Bool, true, false, List, [], ◌∷◌, Option,
  none, some, ltb, arith, All, ltb→lt, Bool-cases, get_elem?,
}
use go_study.Rpc.Balance.Fastest.{Conn, is_faster, fastest, pick}

le_of_not_ltb : (a b : ℕ) → ltb a b ≡ false → b ≤ a
le_of_not_ltb a b e = ground arith

module _ {C D : Type 0} (accepts : D → Bool) where
  -- A connection that is refused, or no faster than another.
  abbrev pub IsBehind : Conn C D → Conn C D → Type 0
  IsBehind c d = (accepts d.address ≡ false) ⊎ (c.response ≤ d.response)

  -- The pick's connection: an accepted one that no accepted one is faster than.
  pub record IsFastest (conns : List (Conn C D)) (c : Conn C D) : Type 0 where
    pub place : ℕ
    pub at_place : get_elem? conns place ≡ some c
    pub accepted : accepts c.address ≡ true
    pub no_slower : All (IsBehind c) conns

  shift :
      (x c : Conn C D) (conns : List (Conn C D))
      → IsBehind c x
      → IsFastest conns c
      → IsFastest (x ∷ conns) c
  shift x c conns b f = record {
    place = suc f.place;
    at_place = f.at_place;
    accepted = f.accepted;
    no_slower = (b, f.no_slower);
  }

  -- What the loop makes of a connection that it starts with.
  data Outcome (res : Conn C D) (conns : List (Conn C D)) (out : Option (Conn C D)) : Type 0 where
    keeps : out ≡ some res → All (IsBehind res) conns → Outcome res conns out
    finds :
        (c : Conn C D)
        → out ≡ some c
        → c.response ≤ res.response
        → IsFastest conns c
        → Outcome res conns out

  past_refused :
      (res c : Conn C D) (conns : List (Conn C D)) (out : Option (Conn C D))
      → accepts c.address ≡ false
      → Outcome res conns out
      → Outcome res (c ∷ conns) out
  past_refused res c conns out unfit (keeps e all) = keeps e (inl unfit, all)
  past_refused res c conns out unfit (finds d e le f) = finds d e le (shift c d conns (inl unfit) f)

  past_faster :
      (res c : Conn C D) (conns : List (Conn C D)) (out : Option (Conn C D))
      → accepts c.address ≡ true
      → c.response < res.response
      → Outcome c conns out
      → Outcome res (c ∷ conns) out
  past_faster res c conns out fits less (keeps e all) =
      finds c e (omega arith) (record {
        place = 0;
        at_place = refl;
        accepted = fits;
        no_slower = (inr (omega arith), all);
      })
  past_faster res c conns out fits less (finds d e le f) =
      finds d e (omega arith) (shift c d conns (inr le) f)

  past_slower :
      (res c : Conn C D) (conns : List (Conn C D)) (out : Option (Conn C D))
      → res.response ≤ c.response
      → Outcome res conns out
      → Outcome res (c ∷ conns) out
  past_slower res c conns out more (keeps e all) = keeps e (inr more, all)
  past_slower res c conns out more (finds d e le f) =
      finds d e le (shift c d conns (inr (omega arith)) f)

  fastest-some :
      (res : Conn C D) (conns : List (Conn C D))
      → Outcome res conns (fastest accepts (some res) conns)
  unfolding fastest is_faster
  fastest-some res [] = keeps refl tt
  fastest-some res (c ∷ conns) = elim (Bool-cases (accepts c.address)) [
    | inr unfit ↦ rw unfit (past_refused res c conns _ unfit (fastest-some res conns))
    | inl fits ↦ elim (Bool-cases (ltb c.response res.response)) [
      | inl less ↦
          rw fits
            (rw less (past_faster res c conns _ fits (ltb→lt _ _ less) (fastest-some c conns)))
      | inr more ↦
          rw fits
            (rw more (past_slower res c conns _ (le_of_not_ltb _ _ more) (fastest-some res conns)))
    ]
  ]

  abbrev IsPick : List (Conn C D) → Option (Conn C D) → Type 0
  IsPick conns out =
      ((out ≡ none) × All (λ d. accepts d.address ≡ false) conns)
      ⊎ ((c : Conn C D) × (out ≡ some c) × IsFastest conns c)

  of_Outcome :
      (c : Conn C D) (conns : List (Conn C D)) (out : Option (Conn C D))
      → accepts c.address ≡ true
      → Outcome c conns out
      → IsPick (c ∷ conns) out
  of_Outcome c conns out fits (keeps e all) = inr (
    c,
    e,
    record { place = 0; at_place = refl; accepted = fits; no_slower = (inr (omega arith), all) },
  )
  of_Outcome c conns out fits (finds d e le f) = inr (d, e, shift c d conns (inr le) f)

  of_rest :
      (c : Conn C D) (conns : List (Conn C D)) (out : Option (Conn C D))
      → accepts c.address ≡ false
      → IsPick conns out
      → IsPick (c ∷ conns) out
  of_rest c conns out unfit (inl (e, all)) = inl (e, (unfit, all))
  of_rest c conns out unfit (inr (d, e, f)) = inr (d, e, shift c d conns (inl unfit) f)

  fastest_accepted :
      (c : Conn C D) (conns : List (Conn C D))
      → accepts c.address ≡ true
      → fastest accepts none (c ∷ conns) ≡ fastest accepts (some c) conns
  unfolding fastest is_faster
  fastest_accepted c conns fits = rw fits refl

  fastest_refused :
      (c : Conn C D) (conns : List (Conn C D))
      → accepts c.address ≡ false
      → fastest accepts none (c ∷ conns) ≡ fastest accepts none conns
  unfolding fastest is_faster
  fastest_refused c conns unfit = rw unfit refl

  fastest-none : (conns : List (Conn C D)) → IsPick conns (fastest accepts none conns)
  unfolding fastest is_faster
  fastest-none [] = inl (refl, tt)
  fastest-none (c ∷ conns) = elim (Bool-cases (accepts c.address)) [
    | inr unfit ↦
        subst (IsPick (c ∷ conns)) (sym (fastest_refused c conns unfit))
          (of_rest c conns _ unfit (fastest-none conns))
    | inl fits ↦
        subst (IsPick (c ∷ conns)) (sym (fastest_accepted c conns fits))
          (of_Outcome c conns _ fits (fastest-some c conns))
  ]

-- A pick fails if the filter refuses every connection, and otherwise returns one that it accepts and
-- that no accepted one is faster than.
pub pick-IsFastest :
    {C D I : Type 0} (filter : I → D → Bool) (conns : List (Conn C D)) (info : I)
    → ((pick filter conns info ≡ none) × All (λ d. filter info d.address ≡ false) conns)
      ⊎ ((c : Conn C D) × (pick filter conns info ≡ some c.sub) × IsFastest (filter info) conns c)
unfolding pick
pick-IsFastest filter conns info = elim (fastest-none (filter info) conns) [
  | inl (e, all) ↦ inl (rw e refl, all)
  | inr (c, e, f) ↦ inr (c, rw e refl, f)
]
