-- ===== src/Rpc/Balance/Fastest.antt =====
-- rpc/homework2/loadbalance/fastest/balancer.go: the pick, and the refresh of the response times from
-- Prometheus. A time.Duration is an int64, kept here with 2 ^ 63 added, which keeps its order. The
-- parameter `addr` reads the field Addr of an address, and `parse` is strconv.ParseInt, its result
-- kept the same way.
pub mod Refresh
pub mod Picks
use go_study.Prelude.{
  beq_iff, ℕ, zero, suc, ◌+◌, ◌*◌, ◌%◌, ◌^◌, ◌≤◌, ◌<◌, ◌≡◌, ◌⊎◌, inl, inr, refl, sym, ap, ◌∙◌,
  subst, Bool, true, false, List, [], ◌∷◌, Option, none, some, ltb, if◌then◌else◌, arith, All,
  ltb→lt, Bool-cases, Option-cases, get_elem?, map, Result, ok, err, ◌>>=◌, >>=-eq-ok, Bytes, bytes,
  beq, lookup,
}

pub record Conn (C D : Type 0) : Type 0 where
  pub sub : C
  pub address : D
  pub response : ℕ

abbrev pub zero_time : ℕ
zero_time = 2 ^ 63

-- `time.Duration(ms) * time.Millisecond`: the product of two int64 wraps around, and 2 ^ 63 times
-- a million is 0 there.
abbrev pub from_millis : ℕ → ℕ
from_millis ms = (ms * 1000000 + zero_time) % 2 ^ 64

-- Why the program ends in a refresh.
pub data Stop : Type 0 where
  fatal not_a_string : Stop

-- A result of Prometheus; a value whose second element is no string is `none`.
pub record Sample : Type 0 where
  pub metric : List (Bytes × Bytes)
  pub value : Option Bytes

pub data Reply : Type 0 where
  no_reply undecodable : Reply
  reply : (status : Bytes) (result : List Sample) → Reply

module _ {C D : Type 0} where
  -- The loop of `Builder.Build`: 100 milliseconds to begin with.
  unfoldable pub build : List (C × D) → List (Conn C D)
  build [] = []
  build ((sub, address) ∷ ready) =
      record { sub = sub; address = address; response = zero_time + 100 * 1000000 } ∷ build ready

  -- The loop of `Pick`.
  unfoldable pub is_faster : Conn C D → Option (Conn C D) → Bool
  is_faster c none = true
  is_faster c (some res) = ltb c.response res.response

  unfoldable pub fastest : (D → Bool) → Option (Conn C D) → List (Conn C D) → Option (Conn C D)
  unfolding is_faster
  fastest accepts res [] = res
  fastest accepts res (c ∷ conns) =
      fastest accepts (if accepts c.address then (if is_faster c res then some c else res) else res)
        conns

  abbrev pub sub_of : Option (Conn C D) → Option C
  sub_of none = none
  sub_of (some c) = some c.sub

  -- `Pick`
  unfoldable pub pick : {I : Type 0} → (I → D → Bool) → List (Conn C D) → I → Option C
  unfolding fastest
  pick filter conns info = sub_of (fastest (filter info) none conns)

  abbrev pub set_time : Option ℕ → Conn C D → Conn C D
  set_time none c = c
  set_time (some ms) c = record c { response = from_millis ms }

module _ {C D : Type 0} (addr : D → Bytes) (parse : Bytes → Option ℕ) where
  -- The inner loop of `updateRespTime`.
  unfoldable pub update_conns :
      Bytes → Option Bytes → List (Conn C D) → Result Stop (List (Conn C D))
  update_conns address value [] = ok []
  update_conns address value (c ∷ conns) =
      let rest = update_conns address value conns in
      if beq (addr c.address) address
      then elim value [
        | none ↦ err not_a_string
        | some v ↦ rest >>= λ conns'. ok (set_time (parse v) c ∷ conns')
      ]
      else rest >>= λ conns'. ok (c ∷ conns')

  -- The outer one, which returns at a result without an address.
  unfoldable pub update_from : List Sample → List (Conn C D) → Result Stop (List (Conn C D))
  unfolding update_conns
  update_from [] conns = ok conns
  update_from (r ∷ results) conns = elim (lookup (bytes "address") r.metric) [
    | none ↦ ok conns
    | some address ↦ update_conns address r.value conns >>= update_from results
  ]

  unfoldable pub update_resp_time : Reply → List (Conn C D) → Result Stop (List (Conn C D))
  unfolding update_from
  update_resp_time no_reply conns = err fatal
  update_resp_time undecodable conns = err fatal
  update_resp_time (reply status results) conns =
      if beq status (bytes "success") then update_from results conns else err fatal
