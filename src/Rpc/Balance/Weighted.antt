-- ===== src/Rpc/Balance/Weighted.antt =====
-- rpc/homework2/loadbalance/roundrobin/weight_balancer.go. The weights are uint32 and wrap around.
-- The picker's pointers are all different, so a connection is its place in the slice.
pub mod Weights
use go_study.Prelude.{
  ℕ, zero, suc, ◌+◌, ◌-◌, ◌%◌, ◌^◌, ◌≤◌, ◌<◌, ◌≡◌, ◌⊎◌, inl, inr, refl, ◌∙◌, false, List, [], ◌∷◌,
  Option, none, some, ltb, if◌then◌else◌, arith, All, Bool-cases, ltb→lt, get_elem?, sym, ap, subst,
  map, ◌++◌,
}
use mathlib.Core.Option.{some-injective}

abbrev pub u32_mod : ℕ
u32_mod = 2 ^ 32

pub record Conn (C : Type 0) : Type 0 where
  pub sub : C
  pub weight : ℕ
  pub current_weight : ℕ
  pub efficient_weight : ℕ

module _ {C : Type 0} where
  -- `WeightBuilder.Build`, with the weight attributes of the addresses, which a uint32 cuts off.
  unfoldable pub build : List (C × ℕ) → List (Conn C)
  build [] = []
  build ((sub, attribute) ∷ ready) =
      let weight = attribute % u32_mod in
      record { sub = sub; weight = weight; current_weight = weight; efficient_weight = weight }
      ∷ build ready

  -- What the loop does to a connection.
  unfoldable pub raise : Conn C → Conn C
  raise c = record c { current_weight = (c.current_weight + c.efficient_weight) % u32_mod }

  unfoldable pub raise_all : List (Conn C) → List (Conn C)
  unfolding raise
  raise_all [] = []
  raise_all (c ∷ conns) = raise c ∷ raise_all conns

  -- What it adds up.
  unfoldable pub total_weight : ℕ → List (Conn C) → ℕ
  total_weight total [] = total
  total_weight total (c ∷ conns) = total_weight ((total + c.efficient_weight) % u32_mod) conns

  -- What it selects: the place and the raised weight of the best so far, from the place `next` on.
  unfoldable pub select : (place weight next : ℕ) → List (Conn C) → ℕ
  unfolding raise
  select place weight next [] = place
  select place weight next (c ∷ conns) =
      if ltb weight (raise c).current_weight
      then select next (raise c).current_weight (suc next) conns
      else select place weight (suc next) conns

  -- `maxWeightConn.currentWeight - totalWeight`
  unfoldable pub lower : ℕ → Conn C → Conn C
  lower total c = record c { current_weight = (c.current_weight + u32_mod - total) % u32_mod }

  unfoldable pub lower_at : ℕ → ℕ → List (Conn C) → List (Conn C)
  unfolding lower
  lower_at total place [] = []
  lower_at total zero (c ∷ conns) = lower total c ∷ conns
  lower_at total (suc place) (c ∷ conns) = c ∷ lower_at total place conns

  abbrev pub sub_of : Option (Conn C) → Option C
  sub_of none = none
  sub_of (some c) = some c.sub

  -- `WeightPicker.Pick`
  unfoldable pub pick : List (Conn C) → List (Conn C) × Option C
  unfolding raise_all total_weight select lower_at raise
  pick [] = ([], none)
  pick (c ∷ conns) =
      let place = select 0 (raise c).current_weight 1 conns in
      (
        lower_at (total_weight 0 (c ∷ conns)) place (raise_all (c ∷ conns)),
        sub_of (get_elem? (c ∷ conns) place),
      )
