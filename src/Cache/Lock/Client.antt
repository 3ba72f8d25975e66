-- ===== src/Cache/Lock/Client.antt =====
-- cache/homework2/redis_lock.go and retry.go: taking, keeping and giving back a lock.
-- What the program does not decide comes in a `Round`: whether the context is done, what other
-- clients and the clock do to Redis in the meantime, and how the call fares.
use go_study.Prelude.{
  ℕ, zero, suc, ◌+◌, ◌==◌, ◌⊎◌, inl, inr, Bool, true, false, Option, none, some, List, [], ◌∷◌, leb,
  if◌then◌else◌, Bytes,
}
use go_study.Cache.Lock.{
  Redis, Reply, status_ok, empty_text, failure, number, Error, failed_to_preempt, lock_not_hold,
  fail_to_refresh, cancelled, deadline_exceeded, redis_error, Delivery, Lock, lock_script,
  refresh_script, unlock_script, eval,
}

pub record Round (S : Type 0) : Type 0 where
  pub is_cancelled : Bool
  pub others : S → S
  pub delivery : Delivery

-- FixIntervalRetry, and its `next`.
pub record FixIntervalRetry (T : Type 0) : Type 0 where
  pub interval : T
  pub max : ℕ
  pub cnt : ℕ

unfoldable pub next : {T : Type 0} → FixIntervalRetry T → FixIntervalRetry T × Option T
next f =
    let cnt = f.cnt + 1 in (record f { cnt = cnt }, if leb cnt f.max then some f.interval else none)

-- `errors.Is(err, context.DeadlineExceeded)`
abbrev pub is_deadline : Option Error → Bool
is_deadline (some deadline_exceeded) = true
is_deadline _ = false

module _ {S E : Type 0} (r : Redis S E) where
  abbrev pub attempt_of : Lock E → Reply ⊎ Error → Option (Lock E) × Option Error
  attempt_of l (inl status_ok) = (some l, none)
  attempt_of l (inl empty_text) = (none, none)
  attempt_of l (inl failure) = (none, none)
  attempt_of l (inl (number n)) = (none, none)
  attempt_of l (inr err) = (none, some err)

  -- `createLock`
  unfoldable pub create_lock :
      Delivery → (key val : Bytes) → E → S → S × (Option (Lock E) × Option Error)
  unfolding eval lock_script
  create_lock d key val e s =
      let (s', answer) = eval d (lock_script r key val e) s in
      (s', attempt_of (record { value = val; key = key; expiration = e }) answer)

  abbrev pub held_or_error : Reply ⊎ Error → Option Error
  held_or_error (inl (number n)) = if n == 1 then none else some lock_not_hold
  held_or_error (inl status_ok) = some redis_error
  held_or_error (inl empty_text) = some redis_error
  held_or_error (inl failure) = some redis_error
  held_or_error (inr err) = some err

  -- `Lock.Refresh`
  unfoldable pub refresh : Delivery → Lock E → S → S × Option Error
  unfolding eval refresh_script
  refresh d l s =
      let (s', answer) = eval d (refresh_script r l.key l.value l.expiration) s in
      (s', held_or_error answer)

  -- `Lock.Unlock`
  unfoldable pub unlock : Delivery → Lock E → S → S × Option Error
  unfolding eval unlock_script
  unlock d l s =
      let (s', answer) = eval d (unlock_script r l.key l.value) s in (s', held_or_error answer)

  -- A lock ends the search.
  abbrev pub after_attempt :
      S × (Option (Lock E) × Option Error)
      → (S → Option Error → S × Option (Lock E ⊎ Error))
      → S × Option (Lock E ⊎ Error)
  after_attempt (s, (some l, err)) go_on = (s, some (inl l))
  after_attempt (s, (none, err)) go_on = go_on s err

  module _ {R T : Type 0} (strategy : R → R × Option T) (key val : Bytes) (e : E) where
    -- The loop of `Client.Lock`, for so many rounds at most; `none` is a loop that goes on.
    unfoldable pub lock_loop : ℕ → (ℕ → Round S) → ℕ → R → S → S × Option (Lock E ⊎ Error)
    unfolding create_lock
    lock_loop zero world n ret s = (s, none)
    lock_loop (suc fuel) world n ret s = elim (strategy ret).1 [
      | none ↦ (s, some (inr failed_to_preempt))
      | some interval ↦ elim (world n).is_cancelled [
        | true ↦ ((world n).others s, some (inr cancelled))
        | false ↦
            after_attempt (create_lock (world n).delivery key val e ((world n).others s))
              λ s' err. lock_loop fuel world (suc n) (strategy ret).0 s'
      ]
    ]

    -- `Client.Lock`; `val` is a fresh UUID.
    unfoldable pub lock : ℕ → (ℕ → Round S) → R → S → S × Option (Lock E ⊎ Error)
    unfolding lock_loop
    lock fuel world ret s = elim (world 0).is_cancelled [
      | true ↦ ((world 0).others s, some (inr cancelled))
      | false ↦
          after_attempt (create_lock (world 0).delivery key val e ((world 0).others s)) λ s' err.
            if is_deadline err
            then (s', some (inr deadline_exceeded))
            else lock_loop fuel world 1 ret s'
    ]

-- AutoRefresh: whether the channel of the retries, which holds one signal, is full, and the
-- strategy; a loop that is blocked on that channel; or what the loop returned.
pub data Status (R : Type 0) : Type 0 where
  waiting : (pending : Bool) → R → Status R
  blocked : Status R
  ended : Option Error → Status R

-- What the loop wakes up for.
pub data Wake : Type 0 where
  ticked signalled : Delivery → Wake
  unlocked : Wake

module _ {S E R T : Type 0} (r : Redis S E) (strategy : R → R × Option T) (l : Lock E) where
  -- `retrySignal <- struct{}{}`
  abbrev pub send : Bool → R → Status R
  send pending ret = if pending then blocked else waiting true ret

  abbrev pub after_refresh : Bool → R → Option Error → Status R
  after_refresh pending ret none = waiting pending ret
  after_refresh pending ret (some deadline_exceeded) = send pending ret
  after_refresh pending ret (some failed_to_preempt) = ended (some failed_to_preempt)
  after_refresh pending ret (some lock_not_hold) = ended (some lock_not_hold)
  after_refresh pending ret (some fail_to_refresh) = ended (some fail_to_refresh)
  after_refresh pending ret (some cancelled) = ended (some cancelled)
  after_refresh pending ret (some redis_error) = ended (some redis_error)

  -- A round of the loop of `AutoRefresh`; a case that is not ready is not taken.
  unfoldable pub wake : Wake → S × Status R → S × Status R
  unfolding refresh
  wake w (s, blocked) = (s, blocked)
  wake w (s, ended result) = (s, ended result)
  wake unlocked (s, waiting pending ret) = (s, ended none)
  wake (ticked d) (s, waiting pending ret) =
      let (s', result) = refresh r d l s in (s', after_refresh pending ret result)
  wake (signalled d) (s, waiting false ret) = (s, waiting false ret)
  wake (signalled d) (s, waiting true ret) = elim (strategy ret).1 [
    | none ↦ (s, ended (some fail_to_refresh))
    | some interval ↦
        let (s', result) = refresh r d l s in (s', after_refresh false (strategy ret).0 result)
  ]

  -- The loop, with what others do to Redis in front of each round.
  unfoldable pub auto_refresh : List ((S → S) × Wake) → S × Status R → S × Status R
  unfolding wake
  auto_refresh [] st = st
  auto_refresh ((others, w) ∷ ws) (s, status) = auto_refresh ws (wake w (others s, status))
