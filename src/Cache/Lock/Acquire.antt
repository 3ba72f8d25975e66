-- ===== src/Cache/Lock/Acquire.antt =====
-- cache/homework2/redis_lock.go: what a lock that is taken or given back means in Redis, and the end
-- of the retries.
use go_study.Prelude.{
  ℕ, zero, suc, ◌<◌, ◌≡◌, ◌≢◌, refl, sym, ap, ◌∙◌, ◌⊎◌, inl, inr, false, Option, none, some, List,
  Bytes, beq, beq_iff, beq_refl, Bool-cases, Option-cases, All, arith, if◌then◌else◌,
}
use go_study.Cache.Lock.{
  Redis, IsRedis, Reply, status_ok, Error, lock_not_hold, cancelled, failed_to_preempt,
  deadline_exceeded, Delivery, arrives, request_lost, reply_lost, Lock, lock_script, unlock_script,
  eval, received, set_or_failure, ok_or_failure, deleted,
}
use go_study.Cache.Lock.Client.{
  Round, after_attempt, create_lock, unlock, lock_loop, lock, is_deadline,
}
use go_study.Cache.Lock.Exclusion.{Call, run_calls, IsForeign, run_calls-IsRefused}

-- An expiration that Redis accepts and that lies ahead.
pub record IsLasting {S E : Type 0} (r : Redis S E) (e : E) : Type 0 where
  pub set_accepts : (k v : Bytes) (s : S) → (s' : S) × (r.set_px k v e s ≡ some s')
  pub expire_keeps :
      (k : Bytes) (s : S)
      → (n : ℕ) × (s' : S) × (r.expire k e s ≡ some (n, s')) × (r.get k s' ≡ r.get k s)

some_inj : {a b : Bytes} → ◌≡◌ {A = Option Bytes} (some a) (some b) → a ≡ b
some_inj e = cc

lock_inj : {E : Type 0} {a b : Lock E} → ◌≡◌ {A = Option (Lock E)} (some a) (some b) → a ≡ b
lock_inj e = cc

outcome_inj :
    {E : Type 0} {a b : Lock E}
    → ◌≡◌ {A = Option (Lock E ⊎ Error)} (some (inl a)) (some (inl b))
    → a ≡ b
outcome_inj e = cc

differ : (a b : Bytes) → beq a b ≡ false → a ≢ b
differ a b other same = cc (other, (beq_iff a b).1 same)

module _ {S E : Type 0} (r : Redis S E) (laws : IsRedis r) where
  -- What `Unlock` does: for the client that holds the lock, it succeeds and frees the key; for any
  -- other it fails and changes nothing.
  pub unlock-outcome :
      (l : Lock E) (s : S)
      → ((r.get l.key s ≡ some l.value)
          × ((unlock r arrives l s).1 ≡ none)
          × (r.get l.key (unlock r arrives l s).0 ≡ none))
        ⊎ ((r.get l.key s ≢ some l.value) × (unlock r arrives l s ≡ (s, some lock_not_hold)))
  unfolding unlock eval unlock_script received deleted
  unlock-outcome l s = elim (Option-cases (r.get l.key s)) [
    | inl free ↦ inr ((λ held. cc), rw (free, unlock_script) refl)
    | inr (w, held) ↦ elim (Bool-cases (beq w l.value)) [
      | inl mine ↦
          let mine' : r.get l.key s ≡ some l.value = held ∙ ap some ((beq_iff w l.value).0 mine) in
          inl (
            mine',
            rw (held, unlock_script) (rw mine (rw (laws.del_count l.key l.value s mine') refl)),
            rw (held, unlock_script)
                (rw mine (laws.get-del l.key s l.key ∙ rw (beq_refl l.key) refl)),
          )
      | inr other ↦ inr (
        (λ same. differ w l.value other (some_inj (sym held ∙ same))),
        rw (held, unlock_script) (rw other refl),
      )
    ]
  ]

module _ {S E : Type 0} (r : Redis S E) (laws : IsRedis r) (e : E) (lasting : IsLasting r e) where
  -- What the lock's script does where its client may have the lock.
  lock_script_free :
      (key val : Bytes) (s : S)
      → r.get key s ≡ none
      → (s' : S) × (lock_script r key val e s ≡ (s', status_ok)) × (r.get key s' ≡ some val)
  unfolding lock_script set_or_failure
  lock_script_free key val s free =
      let (s', set) = lasting.set_accepts key val s in
      (
        s',
        rw (free, lock_script) (rw (set, set_or_failure) refl),
        laws.get-set_px key val e s s' set key ∙ rw (beq_refl key) refl,
      )

  lock_script_mine :
      (key val : Bytes) (s : S)
      → r.get key s ≡ some val
      → (s' : S) × (lock_script r key val e s ≡ (s', status_ok)) × (r.get key s' ≡ some val)
  unfolding lock_script ok_or_failure
  lock_script_mine key val s held =
      let (n, s', set, same) = lasting.expire_keeps key s in
      (s', rw (held, lock_script) (rw (beq_refl val) (rw (set, ok_or_failure) refl)), same ∙ held)

  abbrev pub the_lock : Bytes → Bytes → Lock E
  the_lock key val = record { value = val; key = key; expiration = e }

  -- `createLock` succeeds, and holds the lock.
  abbrev pub IsTaken : Delivery → Bytes → Bytes → S → Type 0
  IsTaken d key val s =
      (s' : S) × (create_lock r d key val e s ≡ (s', (some (the_lock key val), none)))
      × (r.get key s' ≡ some val)

  lock_script-IsTaken :
      (key val : Bytes) (s s' : S)
      → lock_script r key val e s ≡ (s', status_ok)
      → r.get key s' ≡ some val
      → IsTaken arrives key val s
  unfolding create_lock eval received
  lock_script-IsTaken key val s s' ran holds = (s', rw (ran, received) refl, holds)

  -- A lock whose answer got lost is not lost: the next try with the same value gets it, whatever
  -- other clients have tried in between.
  pub create_lock-retry :
      (key val : Bytes) (s : S) (err : Error) (cs : List (Call E))
      → r.get key s ≡ none
      → All (IsForeign key val) cs
      → let s' = (create_lock r (reply_lost err) key val e s).0 in
        IsTaken arrives key val (run_calls r cs s').0
  unfolding create_lock eval
  create_lock-retry key val s err cs free foreign =
      let (s', ran, holds) = lock_script_free key val s free in
      let (still, _) =
        run_calls-IsRefused r laws key val cs (lock_script r key val e s).0
          (ap (λ (p : S × Reply). r.get key p.0) ran ∙ holds) foreign in
      let (s'', again, holds') =
        lock_script_mine key val (run_calls r cs (lock_script r key val e s).0).0 still in
      lock_script-IsTaken key val _ s'' again holds'

  -- When the holder gives the lock back, the next client that asks gets it.
  pub create_lock-unlock :
      (l : Lock E) (val : Bytes) (s : S)
      → r.get l.key s ≡ some l.value
      → IsTaken arrives l.key val (unlock r arrives l s).0
  create_lock-unlock l val s held = elim (unlock-outcome r laws l s) [
    | inl (_, _, free) ↦
        let (s', ran, holds) = lock_script_free l.key val (unlock r arrives l s).0 free in
        lock_script-IsTaken l.key val _ s' ran holds
    | inr (lost, _) ↦ absurd (lost held)
  ]

  not_taken :
      (key val w : Bytes) (s : S)
      → r.get key s ≡ some w
      → beq w val ≡ false
      → create_lock r arrives key val e s ≡ (s, (none, none))
  unfolding create_lock eval received lock_script
  not_taken key val w s held other = rw (held, lock_script) (rw other refl)

  -- What a lock that is returned says.
  abbrev pub IsHeld : Bytes → Bytes → S → Lock E → Type 0
  IsHeld key val s l = (l ≡ the_lock key val) × (r.get key s ≡ some val)

  same_lock :
      (key val : Bytes) (s s' : S) (l : Lock E) (err : Option Error)
      → IsTaken arrives key val s
      → create_lock r arrives key val e s ≡ (s', (some l, err))
      → IsHeld key val s' l
  same_lock key val s s' l err (s2, made, holds) eq =
      let both = sym made ∙ eq in
      (
        sym (lock_inj (ap (λ (p : S × (Option (Lock E) × Option Error)). p.1.0) both)),
        ap (r.get key) (sym (ap (λ (p : S × (Option (Lock E) × Option Error)). p.0) both)) ∙ holds,
      )

  create_lock_lost :
      (d : Delivery) (err : Error) (key val : Bytes) (s : S)
      → (d ≡ request_lost err) ⊎ (d ≡ reply_lost err)
      → (create_lock r d key val e s).1 ≡ (none, some err)
  unfolding create_lock eval
  create_lock_lost d err key val s (inl lost) = rw lost refl
  create_lock_lost d err key val s (inr lost) = rw lost refl

  create_lock-IsHeld :
      (d : Delivery) (key val : Bytes) (s s' : S) (l : Lock E) (err : Option Error)
      → create_lock r d key val e s ≡ (s', (some l, err))
      → IsHeld key val s' l
  create_lock-IsHeld arrives key val s s' l err eq = elim (Option-cases (r.get key s)) [
    | inl free ↦
        let (s2, ran, holds) = lock_script_free key val s free in
        same_lock key val s s' l err (lock_script-IsTaken key val s s2 ran holds) eq
    | inr (w, held) ↦ elim (Bool-cases (beq w val)) [
      | inl mine ↦
          let (s2, ran, holds) =
            lock_script_mine key val s (held ∙ ap some ((beq_iff w val).0 mine)) in
          same_lock key val s s' l err (lock_script-IsTaken key val s s2 ran holds) eq
      | inr other ↦ cc (not_taken key val w s held other, eq)
    ]
  ]
  create_lock-IsHeld (request_lost err') key val s s' l err eq =
      cc (create_lock_lost (request_lost err') err' key val s (inl refl), eq)
  create_lock-IsHeld (reply_lost err') key val s s' l err eq =
      cc (create_lock_lost (reply_lost err') err' key val s (inr refl), eq)

  after_attempt-IsHeld :
      (d : Delivery) (key val : Bytes) (s s' : S) (l : Lock E)
      (go_on : S → Option Error → S × Option (Lock E ⊎ Error))
      (made : S × (Option (Lock E) × Option Error))
      → create_lock r d key val e s ≡ made
      → ((s2 : S) (err : Option Error) → go_on s2 err ≡ (s', some (inl l)) → IsHeld key val s' l)
      → after_attempt r made go_on ≡ (s', some (inl l))
      → IsHeld key val s' l
  after_attempt-IsHeld d key val s s' l go_on (s2, (some l2, err)) eq later whole =
      let (is_lock, holds) = create_lock-IsHeld d key val s s2 l2 err eq in
      (
        sym (outcome_inj (ap (λ (p : S × Option (Lock E ⊎ Error)). p.1) whole)) ∙ is_lock,
        ap (r.get key) (sym (ap (λ (p : S × Option (Lock E ⊎ Error)). p.0) whole)) ∙ holds,
      )
  after_attempt-IsHeld d key val s s' l go_on (s2, (none, err)) eq later whole = later s2 err whole

  module _ {R T : Type 0} (strategy : R → R × Option T) (key val : Bytes) where
    lock_loop-IsHeld :
        (fuel : ℕ) (world : ℕ → Round S) (n : ℕ) (ret : R) (s s' : S) (l : Lock E)
        → lock_loop r strategy key val e fuel world n ret s ≡ (s', some (inl l))
        → IsHeld key val s' l
    unfolding lock_loop
    lock_loop-IsHeld zero world n ret s s' l eq = cc
    lock_loop-IsHeld (suc fuel) world n ret s s' l eq = elim (Option-cases (strategy ret).1) [
      | inl done ↦ cc (rw (done, lock_loop) at eq)
      | inr (interval, more) ↦ elim (Bool-cases (world n).is_cancelled) [
        | inl stop ↦ cc (rw stop at (rw (more, lock_loop) at eq))
        | inr go ↦
            after_attempt-IsHeld (world n).delivery key val ((world n).others s) s' l
              (λ s2 err. lock_loop r strategy key val e fuel world (suc n) (strategy ret).0 s2) _
              refl (λ s2 err. lock_loop-IsHeld fuel world (suc n) (strategy ret).0 s2 s' l)
              (rw go at (rw (more, lock_loop) at eq))
      ]
    ]

    -- Whenever `Client.Lock` returns a lock, Redis has this client's value under the key.
    pub lock-IsHeld :
        (fuel : ℕ) (world : ℕ → Round S) (ret : R) (s s' : S) (l : Lock E)
        → lock r strategy key val e fuel world ret s ≡ (s', some (inl l))
        → IsHeld key val s' l
    unfolding lock
    lock-IsHeld fuel world ret s s' l eq = elim (Bool-cases (world 0).is_cancelled) [
      | inl stop ↦ cc (rw (stop, lock) at eq)
      | inr go ↦
          after_attempt-IsHeld (world 0).delivery key val ((world 0).others s) s' l _ _ refl
            (λ s2 err h. elim (Bool-cases (is_deadline err)) [
              | inl late ↦ cc (rw late at h)
              | inr goes ↦ lock_loop-IsHeld fuel world 1 ret s2 s' l (rw goes at h)
            ])
            (rw (go, lock) at eq)
    ]

-- How a search ends, for any server.
module _ {S E : Type 0} (r : Redis S E) where
  abbrev HasEnded : S × Option (Lock E ⊎ Error) → Type 0
  HasEnded result = (o : Lock E ⊎ Error) × (result.1 ≡ some o)

  after_attempt-HasEnded :
      (made : S × (Option (Lock E) × Option Error))
      (go_on : S → Option Error → S × Option (Lock E ⊎ Error))
      → ((s : S) (err : Option Error) → HasEnded (go_on s err))
      → HasEnded (after_attempt r made go_on)
  after_attempt-HasEnded (s, (some l, err)) go_on later = (inl l, refl)
  after_attempt-HasEnded (s, (none, err)) go_on later = later s err

  -- `left` bounds how often the strategy still goes on: each interval that it gives takes from it.
  module _ {R T : Type 0} (strategy : R → R × Option T) (left : R → ℕ)
      (gives_up : (ret : R) (interval : T)
        → (strategy ret).1 ≡ some interval
        → left (strategy ret).0 < left ret) where
    lock_loop-HasEnded :
        (key val : Bytes) (e : E) (fuel : ℕ) (world : ℕ → Round S) (n : ℕ) (ret : R) (s : S)
        → left ret < fuel
        → HasEnded (lock_loop r strategy key val e fuel world n ret s)
    unfolding lock_loop
    lock_loop-HasEnded key val e zero world n ret s h = absurd (omega arith)
    lock_loop-HasEnded key val e (suc fuel) world n ret s h = elim (Option-cases (strategy ret).1) [
      | inl spent ↦ rw (spent, lock_loop) (inr failed_to_preempt, refl)
      | inr (interval, more) ↦ elim (Bool-cases (world n).is_cancelled) [
        | inl stop ↦ rw (more, lock_loop) (rw stop (inr cancelled, refl))
        | inr go ↦
            rw (more, lock_loop)
              (rw go (
                after_attempt-HasEnded
                  (create_lock r (world n).delivery key val e ((world n).others s))
                  (λ s2 err. lock_loop r strategy key val e fuel world (suc n) (strategy ret).0 s2)
                  λ s2 err.
                    lock_loop-HasEnded key val e fuel world (suc n) (strategy ret).0 s2
                      (omega (arith, gives_up ret interval more))))
      ]
    ]

    late_or_loop :
        (key val : Bytes) (e : E) (fuel : ℕ) (world : ℕ → Round S) (ret : R) (s : S)
        (err : Option Error)
        → left ret < fuel
        → HasEnded (
            if is_deadline err
            then (s, some (inr deadline_exceeded))
            else lock_loop r strategy key val e fuel world 1 ret s)
    late_or_loop key val e fuel world ret s err h = elim (Bool-cases (is_deadline err)) [
      | inl late ↦ rw late (inr deadline_exceeded, refl)
      | inr goes ↦ rw goes (lock_loop-HasEnded key val e fuel world 1 ret s h)
    ]

    -- With a retry strategy that gives up, sooner or later, a search ends, whatever Redis and the
    -- other clients do, in a lock or an error: the rounds of the loop are no more than the intervals
    -- that the strategy still gives, and one.
    pub lock-HasEnded :
        (key val : Bytes) (e : E) (fuel : ℕ) (world : ℕ → Round S) (ret : R) (s : S)
        → left ret < fuel
        → (o : Lock E ⊎ Error) × ((lock r strategy key val e fuel world ret s).1 ≡ some o)
    unfolding lock
    lock-HasEnded key val e fuel world ret s h = elim (Bool-cases (world 0).is_cancelled) [
      | inl stop ↦ rw (stop, lock) (inr cancelled, refl)
      | inr go ↦
          rw (go, lock)
            (after_attempt-HasEnded
              (create_lock r (world 0).delivery key val e ((world 0).others s))
              (λ s2 err.
                if is_deadline err
                then (s2, some (inr deadline_exceeded))
                else lock_loop r strategy key val e fuel world 1 ret s2)
              λ s2 err. late_or_loop key val e fuel world ret s2 err h)
    ]
