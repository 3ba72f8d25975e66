-- ===== src/Rpc/Balance/Tests.antt =====
-- Runs of the pickers, and their theorems at concrete connections; connections and addresses are
-- numbers.
use go_study.Prelude.{
  ℕ, ◌+◌, ◌^◌, ◌≡◌, ◌⊎◌, refl, arith, Bool, List, [], ◌∷◌, some, none, Option, ok, map, false, All,
  ltb, Bytes, bytes, beq, lookup, get_elem?, ◌%◌,
}
use go_study.Rpc.Balance.RoundRobin
use go_study.Rpc.Balance.Weighted
use go_study.Rpc.Balance.Weighted.Weights
use go_study.Rpc.Balance.LeastActive
use go_study.Rpc.Balance.Fastest
use go_study.Rpc.Balance.Fastest.Picks
use go_study.Rpc.Balance.Fastest.Refresh

-- Addresses below the bound that a pick is told.
abbrev below : ℕ → ℕ → Bool
below info address = ltb address info

abbrev three : RoundRobin.Picker ℕ ℕ ℕ
three = record {
  ins =
      record { sub = 10; address = 1 }
      ∷ record { sub = 20; address = 9 }
      ∷ record { sub = 30; address = 2 }
      ∷ [];
  cnt = 0;
  filter = below;
}

build_runs : RoundRobin.build below ((10, 1) ∷ (20, 9) ∷ (30, 2) ∷ []) ≡ three
unfolding RoundRobin.build
build_runs = refl

pick_runs : (RoundRobin.pick three 5).1 ≡ some 30
unfolding RoundRobin.pick
pick_runs = refl

three_candidates :
    RoundRobin.candidates (below 5) three.ins
    ≡ record { sub = 10; address = 1 } ∷ record { sub = 30; address = 2 } ∷ []
unfolding RoundRobin.candidates
three_candidates = refl

pick-pick_times_example :
    (i : RoundRobin.Instance ℕ ℕ) × (get_elem?
        (record { sub = 10; address = 1 } ∷ record { sub = 30; address = 2 } ∷ [])
        ((0 + 3 + 1) % 2)
      ≡ some i)
    × (RoundRobin.pick (RoundRobin.pick_times 3 three 5) 5
        ≡ (record three { cnt = 0 + 3 + 1 }, some i.sub))
pick-pick_times_example =
    RoundRobin.pick-pick_times 3 three 5 (record { sub = 10; address = 1 })
      (record { sub = 30; address = 2 } ∷ []) three_candidates (omega arith)

abbrev weighted : List (Weighted.Conn ℕ)
weighted =
    record { sub = 10; weight = 1; current_weight = 1; efficient_weight = 1 }
    ∷ record { sub = 20; weight = 4; current_weight = 4; efficient_weight = 4 }
    ∷ []

weighted-build : Weighted.build ((10, 1) ∷ (20, 4) ∷ []) ≡ weighted
unfolding Weighted.build
weighted-build = refl

weighted-pick : (Weighted.pick weighted).1 ≡ some 20
unfolding Weighted.pick
weighted-pick = refl

pick-IsHeaviest_example :
    ((weighted ≡ []) × (Weighted.pick weighted ≡ ([], none)))
    ⊎ ((place : ℕ) × (c : Weighted.Conn ℕ) × Weights.IsHeaviest weighted place c
        × Weights.Around weighted (Weighted.pick weighted).0 (Weights.efficient_sum weighted) c
        × ((Weighted.pick weighted).1 ≡ some c.sub))
pick-IsHeaviest_example = Weights.pick-IsHeaviest weighted

current_sum-pick_example :
    Weights.current_sum (Weighted.pick weighted).0 % 2 ^ 32 ≡ Weights.current_sum weighted % 2 ^ 32
current_sum-pick_example = Weights.current_sum-pick weighted

abbrev busy : List (LeastActive.Conn ℕ)
busy = record { num_req = 3; sub = 10 } ∷ record { num_req = 1; sub = 20 } ∷ []

abbrev events : List LeastActive.Event
events = LeastActive.picked ∷ LeastActive.picked ∷ LeastActive.finished 0 ∷ LeastActive.picked ∷ []

run-start_example :
    (LeastActive.run {C = ℕ} events (LeastActive.start (10 ∷ 20 ∷ []))).chosen ≡ 10 ∷ 10 ∷ 10 ∷ []
run-start_example = LeastActive.run-start 10 (20 ∷ []) events

abbrev addr : ℕ → Bytes
addr n = n ∷ []

-- Of a value, the first byte, in milliseconds.
abbrev parse : Bytes → Option ℕ
parse [] = none
parse (b ∷ bs) = some (2 ^ 63 + b)

abbrev slow : List (Fastest.Conn ℕ ℕ)
slow =
    record { sub = 10; address = 1; response = 2 ^ 63 + 100000000 }
    ∷ record { sub = 20; address = 2; response = 2 ^ 63 + 100000000 }
    ∷ []

abbrev quick : List (Fastest.Conn ℕ ℕ)
quick =
    record { sub = 10; address = 1; response = 2 ^ 63 + 100000000 }
    ∷ record { sub = 20; address = 2; response = 2 ^ 63 + 7000000 }
    ∷ []

abbrev samples : List Fastest.Sample
samples =
    record { metric = (bytes "address", 2 ∷ []) ∷ []; value = some (7 ∷ []) }
    ∷ record { metric = []; value = none }
    ∷ []

slow-build : Fastest.build ((10, 1) ∷ (20, 2) ∷ []) ≡ slow
unfolding Fastest.build
slow-build = refl

refresh_runs :
    Fastest.update_resp_time addr parse (Fastest.reply (bytes "success") samples) slow ≡ ok quick
unfolding Fastest.update_resp_time Fastest.update_from lookup beq
refresh_runs = refl

pick-IsFastest_example :
    ((Fastest.pick below quick 2 ≡ none) × All (λ d. below 2 d.address ≡ false) quick)
    ⊎ ((c : Fastest.Conn ℕ ℕ) × (Fastest.pick below quick 2 ≡ some c.sub)
        × Picks.IsFastest (below 2) quick c)
pick-IsFastest_example = Picks.pick-IsFastest below quick 2

update_resp_time-refresh_example :
    (bytes "success" ≡ bytes "success") × (quick ≡ map (Refresh.refresh addr parse samples) slow)
update_resp_time-refresh_example =
    Refresh.update_resp_time-refresh addr parse (bytes "success") samples slow quick refresh_runs
