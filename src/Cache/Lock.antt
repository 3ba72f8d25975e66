-- ===== src/Cache/Lock.antt =====
-- cache/homework2: redis_lock.go, retry.go and the scripts under lua/.
-- Redis is a parameter: a type `S` of its states, its commands, and `E` for what it is told of an
-- expiration. A script runs as one step. A call may be lost on its way there or back.
pub mod Client
pub mod Exclusion
pub mod Acquire
pub mod Renewal
mod Tests
use go_study.Prelude.{
  ℕ, zero, suc, ◌+◌, ◌≡◌, ◌⊎◌, inl, inr, Bool, true, false, Option, none, some, List, [], ◌∷◌, leb,
  if◌then◌else◌, Bytes, beq, ◌==◌,
}

-- `get`, `set … PX`, `expire` and `del`; `none` is an error reply.
pub record Redis (S E : Type 0) : Type 0 where
  pub get : Bytes → S → Option Bytes
  pub set_px : Bytes → Bytes → E → S → Option S
  pub expire : Bytes → E → S → Option (ℕ × S)
  pub del : Bytes → S → ℕ × S

-- What the documentation of the commands says of the values of keys. An expiration in the past
-- deletes the key.
pub record IsRedis {S E : Type 0} (r : Redis S E) : Type 0 where
  pub get-set_px :
      (k v : Bytes) (e : E) (s s' : S)
      → r.set_px k v e s ≡ some s'
      → (j : Bytes) → r.get j s' ≡ (if beq k j then some v else r.get j s)
  pub get-expire :
      (k : Bytes) (e : E) (s s' : S) (n : ℕ)
      → r.expire k e s ≡ some (n, s')
      → (j : Bytes) → (r.get j s' ≡ r.get j s) ⊎ ((j ≡ k) × (r.get j s' ≡ none))
  pub get-del :
      (k : Bytes) (s : S) (j : Bytes)
      → r.get j (r.del k s).1 ≡ (if beq k j then none else r.get j s)
  pub del_count : (k v : Bytes) (s : S) → r.get k s ≡ some v → (r.del k s).0 ≡ 1

-- What a script answers.
pub data Reply : Type 0 where
  status_ok empty_text failure : Reply
  number : ℕ → Reply

pub data Error : Type 0 where
  failed_to_preempt lock_not_hold fail_to_refresh : Error
  -- Of the context, or of the call of Redis.
  cancelled deadline_exceeded redis_error : Error

-- How a call of Redis ends; a call that is lost ends in an error.
pub data Delivery : Type 0 where
  arrives : Delivery
  request_lost reply_lost : Error → Delivery

pub record Lock (E : Type 0) : Type 0 where
  pub value : Bytes
  pub key : Bytes
  pub expiration : E

unfoldable pub received : Reply → Reply ⊎ Error
received failure = inr redis_error
received status_ok = inl status_ok
received empty_text = inl empty_text
received (number n) = inl (number n)

module _ {S : Type 0} where
  number_or_failure : S → Option (ℕ × S) → S × Reply
  number_or_failure s none = (s, failure)
  number_or_failure s (some (n, s')) = (s', number n)

  ok_or_failure : S → Option (ℕ × S) → S × Reply
  ok_or_failure s none = (s, failure)
  ok_or_failure s (some (n, s')) = (s', status_ok)

  set_or_failure : S → Option S → S × Reply
  set_or_failure s none = (s, failure)
  set_or_failure s (some s') = (s', status_ok)

  deleted : ℕ × S → S × Reply
  deleted (n, s') = (s', number n)

  -- `client.Eval`: the state afterwards, and the reply or the error.
  unfoldable pub eval : Delivery → (S → S × Reply) → S → S × (Reply ⊎ Error)
  unfolding received
  eval arrives script s = let (s', reply) = script s in (s', received reply)
  eval (request_lost err) script s = (s, inr err)
  eval (reply_lost err) script s = ((script s).0, inr err)

module _ {S E : Type 0} (r : Redis S E) where
  -- lua/lock.lua
  unfoldable pub lock_script : Bytes → Bytes → E → S → S × Reply
  unfolding ok_or_failure set_or_failure
  lock_script key val e s = elim (r.get key s) [
    | none ↦ set_or_failure s (r.set_px key val e s)
    | some w ↦ if beq w val then ok_or_failure s (r.expire key e s) else (s, empty_text)
  ]

  -- lua/refresh.lua
  unfoldable pub refresh_script : Bytes → Bytes → E → S → S × Reply
  unfolding number_or_failure
  refresh_script key val e s = elim (r.get key s) [
    | none ↦ (s, number 0)
    | some w ↦ if beq w val then number_or_failure s (r.expire key e s) else (s, number 0)
  ]

  -- lua/unlock.lua
  unfoldable pub unlock_script : Bytes → Bytes → S → S × Reply
  unfolding deleted
  unlock_script key val s = elim (r.get key s) [
    | none ↦ (s, number 0)
    | some w ↦ if beq w val then deleted (r.del key s) else (s, number 0)
  ]
