-- ===== src/Cache/Lock/Renewal.antt =====
-- cache/homework2/redis_lock.go: the loop of AutoRefresh.
use go_study.Prelude.{
  ◌+◌, ◌-◌, ◌<◌, ◌≡◌, refl, ap, ◌∙◌, ◌⊎◌, inl, inr, Bool, true, false, Option, some, List, [], ◌∷◌,
  Bool-cases, All, arith, leb, leb→le, length,
}
use go_study.Cache.Lock.{
  Redis, Error, fail_to_refresh, deadline_exceeded, Delivery, request_lost, reply_lost, Lock, eval,
}
use go_study.Cache.Lock.Client.{
  FixIntervalRetry, next, refresh, Status, waiting, blocked, ended, Wake, ticked, signalled,
  after_refresh, send, wake, auto_refresh,
}

-- A call that runs into its deadline.
abbrev pub IsLate : Delivery → Type 0
IsLate d = (d ≡ request_lost deadline_exceeded) ⊎ (d ≡ reply_lost deadline_exceeded)

abbrev pub retries : {S : Type 0} → List ((S → S) × Delivery) → List ((S → S) × Wake)
retries [] = []
retries ((others, d) ∷ ds) = (others, signalled d) ∷ retries ds

module _ {S E R T : Type 0} (r : Redis S E) (strategy : R → R × Option T) (l : Lock E) where
  refresh_late : (d : Delivery) (s : S) → IsLate d → (refresh r d l s).1 ≡ some deadline_exceeded
  unfolding refresh eval
  refresh_late d s (inl late) = rw late refl
  refresh_late d s (inr late) = rw late refl

  auto_refresh_stuck :
      (ws : List ((S → S) × Wake)) (s : S) → (auto_refresh r strategy l ws (s, blocked)).1 ≡ blocked
  unfolding auto_refresh wake
  auto_refresh_stuck [] s = refl
  auto_refresh_stuck ((others, w) ∷ ws) s = auto_refresh_stuck ws (others s)

  auto_refresh_over :
      (ws : List ((S → S) × Wake)) (s : S) (result : Option Error)
      → (auto_refresh r strategy l ws (s, ended result)).1 ≡ ended result
  unfolding auto_refresh wake
  auto_refresh_over [] s result = refl
  auto_refresh_over ((others, w) ∷ ws) s result = auto_refresh_over ws (others s) result

  -- The outcome of a loop, after its first round.
  auto_refresh_next :
      (others : S → S) (w : Wake) (ws : List ((S → S) × Wake)) (s : S) (status : Status R)
      (st : S × Status R)
      → wake r strategy l w (others s, status) ≡ st
      → (auto_refresh r strategy l ((others, w) ∷ ws) (s, status)).1
        ≡ (auto_refresh r strategy l ws st).1
  unfolding auto_refresh
  auto_refresh_next others w ws s status st e = ap (λ t. (auto_refresh r strategy l ws t).1) e

  wake_late :
      (d : Delivery) (s : S) (pending : Bool) (ret : R)
      → IsLate d
      → wake r strategy l (ticked d) (s, waiting pending ret)
        ≡ ((refresh r d l s).0, send r strategy l pending ret)
  unfolding wake
  wake_late d s pending ret late =
      ap (λ res. ((refresh r d l s).0, after_refresh r strategy l pending ret res))
        (refresh_late d s late)

  -- Two ticks in a row whose refresh runs into its deadline block the loop for good: the second
  -- signal is sent into a channel that is full and that nobody else reads. It does not end then when
  -- the lock is given back either.
  pub auto_refresh-blocked :
      (first second : S → S) (d d' : Delivery) (ws : List ((S → S) × Wake)) (s : S) (ret : R)
      → IsLate d
      → IsLate d'
      → (auto_refresh r strategy l
          ((first, ticked d) ∷ (second, ticked d') ∷ ws)
          (s, waiting false ret)).1
        ≡ blocked
  auto_refresh-blocked first second d d' ws s ret late late' =
      let s1 = (refresh r d l (first s)).0 in
      auto_refresh_next first (ticked d) ((second, ticked d') ∷ ws) s (waiting false ret) _
        (wake_late d (first s) false ret late)
      ∙ auto_refresh_next second (ticked d') ws s1 (waiting true ret) _
          (wake_late d' (second s1) true ret late')
      ∙ auto_refresh_stuck ws (refresh r d' l (second s1)).0

module _ {S E T : Type 0} (r : Redis S E) (l : Lock E) where
  wake_more :
      (d : Delivery) (s : S) (ret : FixIntervalRetry T)
      → IsLate d
      → leb (ret.cnt + 1) ret.max ≡ true
      → wake r next l (signalled d) (s, waiting true ret)
        ≡ ((refresh r d l s).0, waiting true (record ret { cnt = ret.cnt + 1 }))
  unfolding wake next
  wake_more d s ret late more =
      rw (more, wake)
        (ap
          (λ res. (
            (refresh r d l s).0,
            after_refresh r (next {T = T}) l false (record ret { cnt = ret.cnt + 1 }) res,
          ))
          (refresh_late r (next {T = T}) l d s late))

  wake_spent :
      (d : Delivery) (s : S) (ret : FixIntervalRetry T)
      → leb (ret.cnt + 1) ret.max ≡ false
      → wake r next l (signalled d) (s, waiting true ret) ≡ (s, ended (some fail_to_refresh))
  unfolding wake next
  wake_spent d s ret spent = rw (spent, wake) refl

  -- While every refresh runs into its deadline, the retries that follow on a tick come to an end:
  -- after as many as FixIntervalRetry has left, and one more, AutoRefresh gives up.
  pub auto_refresh-ended :
      (ds : List ((S → S) × Delivery)) (s : S) (ret : FixIntervalRetry T)
      → All (λ p. IsLate p.1) ds
      → ret.max - ret.cnt < length ds
      → (auto_refresh r next l (retries ds) (s, waiting true ret)).1 ≡ ended (some fail_to_refresh)
  auto_refresh-ended [] s ret late h = absurd (omega arith)
  auto_refresh-ended ((others, d) ∷ ds) s ret (late, lates) h =
      elim (Bool-cases (leb (ret.cnt + 1) ret.max)) [
        | inl more ↦
            auto_refresh_next r (next {T = T}) l others (signalled d) (retries ds) s
              (waiting true ret) _ (wake_more d (others s) ret late more)
            ∙ (auto_refresh-ended ds (refresh r d l (others s)).0 (record ret { cnt = ret.cnt + 1 })
                lates (omega (arith, leb→le (ret.cnt + 1) ret.max more)))
        | inr spent ↦
            auto_refresh_next r (next {T = T}) l others (signalled d) (retries ds) s
              (waiting true ret) _ (wake_spent d (others s) ret spent)
            ∙ (auto_refresh_over r (next {T = T}) l (retries ds) (others s) (some fail_to_refresh))
      ]
