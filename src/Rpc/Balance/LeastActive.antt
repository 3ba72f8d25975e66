-- ===== src/Rpc/Balance/LeastActive.antt =====
-- rpc/homework2/loadbalance/leastactive/leastactive.go. The picker's slice holds structs, and a pick
-- works on a copy of one of them, as does the function Done that it hands out.
use go_study.Prelude.{
  ℕ, zero, suc, ◌+◌, ◌≤◌, ◌<◌, ◌≡◌, refl, ◌∙◌, false, List, [], ◌∷◌, ◌++◌, Option, none, some, ltb,
  if◌then◌else◌, arith, All, Bool-cases, get_elem?, replicate, inl, inr, ◌⊎◌, sym, append_assoc,
  append-nil,
}

-- The number of requests is an int64; no copy is counted up more than once.
pub record Conn (C : Type 0) : Type 0 where
  pub num_req : ℕ
  pub sub : C

module _ {C : Type 0} where
  -- `PickerBuilder.Build`
  unfoldable pub build : List C → List (Conn C)
  build [] = []
  build (sub ∷ ready) = record { num_req = 0; sub = sub } ∷ build ready

  -- The loop of `Pick`.
  unfoldable pub least : Conn C → List (Conn C) → Conn C
  least res [] = res
  least res (c ∷ conns) = least (if ltb c.num_req res.num_req then c else res) conns

  -- `Pick`: the picker's slice afterwards, and the counted copy, which Done keeps.
  unfoldable pub pick : List (Conn C) → List (Conn C) × Option (Conn C)
  unfolding least
  pick [] = ([], none)
  pick (c ∷ conns) =
      let res = least c conns in (c ∷ conns, some (record res { num_req = res.num_req + 1 }))

-- What happens to a picker: a pick, or the end of a request under way, named by its place.
pub data Event : Type 0 where
  picked : Event
  finished : ℕ → Event

-- A picker's slice, the copies of the requests under way, the oldest first, and the connections
-- that were picked, the first one in front.
pub record State (C : Type 0) : Type 0 where
  pub conns : List (Conn C)
  pub active : List (Conn C)
  pub chosen : List C

module _ {C : Type 0} where
  abbrev pub start_request : State C → List (Conn C) × Option (Conn C) → State C
  start_request s (conns, none) = record s { conns = conns }
  start_request s (conns, some c) = record {
    conns = conns;
    active = s.active ++ (c ∷ []);
    chosen = s.chosen ++ (c.sub ∷ []);
  }

  -- `Done`, which is called once, counts down a copy that nobody reads any more.
  unfoldable pub end_request : ℕ → List (Conn C) → List (Conn C)
  end_request k [] = []
  end_request zero (c ∷ active) = active
  end_request (suc k) (c ∷ active) = c ∷ end_request k active

  unfoldable pub step : Event → State C → State C
  unfolding pick end_request
  step picked s = start_request s (pick s.conns)
  step (finished k) s = record s { active = end_request k s.active }

  unfoldable pub run : List Event → State C → State C
  unfolding step
  run [] s = s
  run (e ∷ es) s = run es (step e s)

  abbrev pub start : List C → State C
  start ready = record { conns = build ready; active = []; chosen = [] }

-- How many of the events are picks.
abbrev pub picks : List Event → ℕ
picks [] = 0
picks (picked ∷ es) = suc (picks es)
picks (finished k ∷ es) = picks es

abbrev past_second : ℕ → ℕ
past_second zero = zero
past_second (suc k) = suc (suc k)

module _ {C : Type 0} where
  -- The connection that the loop finds stands in the slice, and has no more requests than any.
  pub record IsLeast (conns : List (Conn C)) (res : Conn C) : Type 0 where
    pub place : ℕ
    pub at_place : get_elem? conns place ≡ some res
    pub fewest : All (λ c. res.num_req ≤ c.num_req) conns

  skip_first :
      (res c r : Conn C) (conns : List (Conn C))
      → c.num_req < res.num_req
      → IsLeast (c ∷ conns) r
      → IsLeast (res ∷ c ∷ conns) r
  skip_first res c r conns less h = record {
    place = suc h.place;
    at_place = h.at_place;
    fewest = (omega (arith, h.fewest.0), h.fewest);
  }

  skip_second :
      (res c r : Conn C) (conns : List (Conn C)) (k : ℕ)
      → get_elem? (res ∷ conns) k ≡ some r
      → get_elem? (res ∷ c ∷ conns) (past_second k) ≡ some r
  skip_second res c r conns zero e = e
  skip_second res c r conns (suc k) e = e

  keep_first :
      (res c r : Conn C) (conns : List (Conn C))
      → res.num_req ≤ c.num_req
      → IsLeast (res ∷ conns) r
      → IsLeast (res ∷ c ∷ conns) r
  keep_first res c r conns more h = record {
    place = past_second h.place;
    at_place = skip_second res c r conns h.place h.at_place;
    fewest = (h.fewest.0, (omega (arith, h.fewest.0), h.fewest.1));
  }

  least-IsLeast : (res : Conn C) (conns : List (Conn C)) → IsLeast (res ∷ conns) (least res conns)
  unfolding least
  least-IsLeast res [] = record { place = 0; at_place = refl; fewest = (omega arith, tt) }
  least-IsLeast res (c ∷ conns) = elim (Bool-cases (ltb c.num_req res.num_req)) [
    | inl less ↦
        rw less (skip_first res c (least c conns) conns (ground arith) (least-IsLeast c conns))
    | inr more ↦
        rw more (keep_first res c (least res conns) conns (ground arith) (least-IsLeast res conns))
  ]

  -- A pick returns a copy, counted one up, of a connection that stands in the slice and has no more
  -- requests there than any other, and it leaves the slice as it was; with no connection it fails.
  pub pick-IsLeast :
      (conns : List (Conn C))
      → ((conns ≡ []) × (pick conns ≡ ([], none)))
        ⊎ ((res : Conn C) × IsLeast conns res
            × (pick conns ≡ (conns, some (record res { num_req = res.num_req + 1 }))))
  unfolding pick
  pick-IsLeast [] = inl (refl, refl)
  pick-IsLeast (c ∷ conns) = inr (least c conns, least-IsLeast c conns, refl)

  least_zero : (res : Conn C) (conns : List (Conn C)) → res.num_req ≡ 0 → least res conns ≡ res
  unfolding least
  least_zero res [] z = refl
  least_zero res (c ∷ conns) z = rw (not_less) (least_zero res conns z)
    where
      not_less : ltb c.num_req res.num_req ≡ false
      not_less = ground arith

  run_first :
      (c : Conn C) (conns active : List (Conn C)) (chosen : List C) (es : List Event)
      → c.num_req ≡ 0
      → (run es (record { conns = c ∷ conns; active = active; chosen = chosen })).chosen
        ≡ chosen ++ replicate (picks es) c.sub
  unfolding run step pick
  run_first c conns active chosen [] z = sym (append-nil chosen)
  run_first c conns active chosen (picked ∷ es) z =
      rw (least_zero c conns z, run)
        (run_first c conns _ (chosen ++ (c.sub ∷ [])) es z
          ∙ append_assoc chosen (c.sub ∷ []) (replicate (picks es) c.sub))
  run_first c conns active chosen (finished k ∷ es) z =
      run_first c conns (end_request k active) chosen es z

  -- Whatever picks and ends of requests follow one another, a picker that is built from ready
  -- connections picks the first of them every time.
  pub run-start :
      (c : C) (ready : List C) (es : List Event)
      → (run es (start (c ∷ ready))).chosen ≡ replicate (picks es) c
  unfolding build
  run-start c ready es = run_first (record { num_req = 0; sub = c }) (build ready) [] [] es refl
