-- ===== src/Cache/Lock/Exclusion.antt =====
-- cache/homework2: a lock that is held, and the scripts of clients with other values.
use go_study.Prelude.{
  ℕ, ◌≡◌, ◌≢◌, refl, sym, ap, ◌∙◌, ◌⊎◌, inl, inr, false, some, List, [], ◌∷◌, Bytes, beq, beq_iff,
  Bool-cases, Option-cases, All,
}
use go_study.Cache.Lock.{
  Redis, IsRedis, Reply, empty_text, number, lock_script, refresh_script, unlock_script,
  set_or_failure, ok_or_failure, number_or_failure, deleted,
}

-- A script that a client runs, with the client's value.
pub data Task (E : Type 0) : Type 0 where
  locks refreshes : E → Task E
  unlocks : Task E

pub record Call (E : Type 0) : Type 0 where
  pub key : Bytes
  pub value : Bytes
  pub task : Task E

module _ {S E : Type 0} (r : Redis S E) where
  abbrev pub task_script : Bytes → Bytes → Task E → S → S × Reply
  task_script key val (locks e) = lock_script r key val e
  task_script key val (refreshes e) = refresh_script r key val e
  task_script key val unlocks = unlock_script r key val

  abbrev pub call_script : Call E → S → S × Reply
  call_script c = task_script c.key c.value c.task

  unfoldable pub run_calls : List (Call E) → S → S × List (Call E × Reply)
  run_calls [] s = (s, [])
  run_calls (c ∷ cs) s =
      let (s', reply) = call_script c s in
      let (s'', replies) = run_calls cs s' in (s'', (c, reply) ∷ replies)

-- What a script answers to a client that does not hold the lock.
abbrev pub refusal : {E : Type 0} → Task E → Reply
refusal (locks e) = empty_text
refusal (refreshes e) = number 0
refusal unlocks = number 0

-- A call for another key, or one with another value.
abbrev pub IsForeign : {E : Type 0} → Bytes → Bytes → Call E → Type 0
IsForeign key v c = (c.key ≢ key) ⊎ ((c.key ≡ key) × (v ≢ c.value))

-- A call for another key, or one that is refused.
abbrev pub IsRefused : {E : Type 0} → Bytes → Call E × Reply → Type 0
IsRefused key (c, reply) = (c.key ≢ key) ⊎ (reply ≡ refusal c.task)

pub not_beq : (a b : Bytes) → a ≢ b → beq a b ≡ false
not_beq a b h = elim (Bool-cases (beq a b)) [
  | inl same ↦ absurd (h ((beq_iff a b).0 same))
  | inr other ↦ other
]

module _ {S E : Type 0} (r : Redis S E) (laws : IsRedis r) where
  -- A script for another key leaves a key alone.
  expire_elsewhere :
      (k key : Bytes) (e : E) (s : S) (n : ℕ) (s' : S)
      → k ≢ key
      → r.expire k e s ≡ some (n, s')
      → r.get key s' ≡ r.get key s
  expire_elsewhere k key e s n s' h eq = elim (laws.get-expire k e s s' n eq key) [
    | inl same ↦ same
    | inr (same_key, _) ↦ absurd (h (sym same_key))
  ]

  expired_elsewhere :
      (k key : Bytes) (e : E) (s : S)
      → k ≢ key
      → (r.get key (ok_or_failure s (r.expire k e s)).0 ≡ r.get key s)
        × (r.get key (number_or_failure s (r.expire k e s)).0 ≡ r.get key s)
  unfolding ok_or_failure number_or_failure
  expired_elsewhere k key e s h = elim (Option-cases (r.expire k e s)) [
    | inl failed ↦ (rw (failed, ok_or_failure) refl, rw (failed, number_or_failure) refl)
    | inr ((n, s'), done) ↦ (
      rw (done, ok_or_failure) (expire_elsewhere k key e s n s' h done),
      rw (done, number_or_failure) (expire_elsewhere k key e s n s' h done),
    )
  ]

  set_elsewhere :
      (k key val : Bytes) (e : E) (s : S)
      → k ≢ key
      → r.get key (set_or_failure s (r.set_px k val e s)).0 ≡ r.get key s
  unfolding set_or_failure
  set_elsewhere k key val e s h = elim (Option-cases (r.set_px k val e s)) [
    | inl failed ↦ rw (failed, set_or_failure) refl
    | inr (s', done) ↦
        rw (done, set_or_failure)
          (laws.get-set_px k val e s s' done key ∙ rw (not_beq k key h) refl)
  ]

  deleted_elsewhere :
      (k key : Bytes) (s : S) → k ≢ key → r.get key (deleted (r.del k s)).0 ≡ r.get key s
  unfolding deleted
  deleted_elsewhere k key s h = laws.get-del k s key ∙ rw (not_beq k key h) refl

  task_elsewhere :
      (k val key : Bytes) (t : Task E) (s : S)
      → k ≢ key
      → r.get key (task_script r k val t s).0 ≡ r.get key s
  unfolding lock_script refresh_script unlock_script
  task_elsewhere k val key (locks e) s h = elim (Option-cases (r.get k s)) [
    | inl free ↦ rw (free, lock_script) (set_elsewhere k key val e s h)
    | inr (w, held) ↦ elim (Bool-cases (beq w val)) [
      | inl mine ↦ rw (held, lock_script) (rw mine (expired_elsewhere k key e s h).0)
      | inr other ↦ rw (held, lock_script) (rw other refl)
    ]
  ]
  task_elsewhere k val key (refreshes e) s h = elim (Option-cases (r.get k s)) [
    | inl free ↦ rw (free, refresh_script) refl
    | inr (w, held) ↦ elim (Bool-cases (beq w val)) [
      | inl mine ↦ rw (held, refresh_script) (rw mine (expired_elsewhere k key e s h).1)
      | inr other ↦ rw (held, refresh_script) (rw other refl)
    ]
  ]
  task_elsewhere k val key unlocks s h = elim (Option-cases (r.get k s)) [
    | inl free ↦ rw (free, unlock_script) refl
    | inr (w, held) ↦ elim (Bool-cases (beq w val)) [
      | inl mine ↦ rw (held, unlock_script) (rw mine (deleted_elsewhere k key s h))
      | inr other ↦ rw (held, unlock_script) (rw other refl)
    ]
  ]

  -- A script of a client with another value finds the lock held and changes nothing.
  pub task_refused :
      (key v val : Bytes) (t : Task E) (s : S)
      → r.get key s ≡ some v
      → beq v val ≡ false
      → task_script r key val t s ≡ (s, refusal t)
  unfolding lock_script refresh_script unlock_script
  task_refused key v val (locks e) s held other = rw (held, lock_script) (rw other refl)
  task_refused key v val (refreshes e) s held other = rw (held, refresh_script) (rw other refl)
  task_refused key v val unlocks s held other = rw (held, unlock_script) (rw other refl)

  foreign_call :
      (key v : Bytes) (c : Call E) (s : S)
      → r.get key s ≡ some v
      → IsForeign key v c
      → (r.get key (call_script r c s).0 ≡ some v) × IsRefused key (c, (call_script r c s).1)
  foreign_call key v c s held (inl elsewhere) =
      (task_elsewhere c.key c.value key c.task s elsewhere ∙ held, inl elsewhere)
  foreign_call key v c s held (inr (here, other)) =
      let refused =
        task_refused c.key v c.value c.task s (ap (λ k. r.get k s) here ∙ held)
          (not_beq v c.value other) in
      (
        ap (λ (p : S × Reply). r.get key p.0) refused ∙ held,
        inr (ap (λ (p : S × Reply). p.1) refused),
      )

  -- Whatever scripts clients with other values run, however often, a key keeps the value of the
  -- client that holds it, if it does not expire: each of their calls for that key is refused, so
  -- that nobody else is told that the lock is theirs, extends it or takes it away.
  pub run_calls-IsRefused :
      (key v : Bytes) (cs : List (Call E)) (s : S)
      → r.get key s ≡ some v
      → All (IsForeign key v) cs
      → (r.get key (run_calls r cs s).0 ≡ some v) × All (IsRefused key) (run_calls r cs s).1
  unfolding run_calls
  run_calls-IsRefused key v [] s held hs = (held, tt)
  run_calls-IsRefused key v (c ∷ cs) s held (h, hs) =
      let (held', refused) = foreign_call key v c s held h in
      let (held'', all) = run_calls-IsRefused key v cs (call_script r c s).0 held' hs in
      (held'', (refused, all))
