-- ===== src/Cache/Lock/Tests.antt =====
-- A Redis that keeps its values in a function and lets nothing expire, and the lock on it.
use go_study.Prelude.{
  ℕ, zero, suc, ◌≡◌, ◌≢◌, refl, sym, ap, ◌⊎◌, inl, inr, false, Option, none, some, List, [], ◌∷◌,
  Bytes, bytes, beq, All, length, ◌<◌, arith, if◌then◌else◌,
}
use go_study.Cache.Lock.{
  Redis, IsRedis, Error, lock_not_hold, deadline_exceeded, redis_error, Delivery, arrives,
  request_lost, reply_lost, Lock, lock_script, refresh_script, eval, received,
}
use go_study.Cache.Lock.Client.{
  Round, FixIntervalRetry, next, create_lock, unlock, refresh, lock, lock_loop, waiting, blocked,
  ticked, unlocked, auto_refresh,
}
use go_study.Cache.Lock.Exclusion.{
  Call, locks, unlocks, run_calls, IsForeign, IsRefused, run_calls-IsRefused,
}
use go_study.Cache.Lock.Acquire.{
  IsLasting, IsTaken, IsHeld, unlock-outcome, create_lock-retry, lock-IsHeld, lock-HasEnded,
}
use go_study.Cache.Lock.Renewal.{auto_refresh-blocked}

abbrev Values : Type 0
Values = Bytes → Option Bytes

abbrev count_of : Option Bytes → Values → Option (ℕ × Values)
count_of none s = some (0, s)
count_of (some v) s = some (1, s)

abbrev deletes : Option Bytes → ℕ
deletes none = 0
deletes (some v) = 1

abbrev redis : Redis Values ℕ
redis = record {
  get = λ k s. s k;
  set_px = λ k v e s. some (λ j. if beq k j then some v else s j);
  expire = λ k e s. count_of (s k) s;
  del = λ k s. (deletes (s k), λ j. if beq k j then none else s j);
}

values_inj : {s t : Values} → ◌≡◌ {A = Option Values} (some s) (some t) → s ≡ t
values_inj e = cc

counted_inj :
    {m n : ℕ} {s t : Values}
    → ◌≡◌ {A = Option (ℕ × Values)} (some (m, s)) (some (n, t))
    → (m ≡ n) × (s ≡ t)
counted_inj e = (cc, cc)

same_values : (o : Option Bytes) (n : ℕ) (s s' : Values) → count_of o s ≡ some (n, s') → s ≡ s'
same_values none n s s' e = (counted_inj e).1
same_values (some v) n s s' e = (counted_inj e).1

redis-IsRedis : IsRedis redis
redis-IsRedis = record {
  get-set_px = λ k v e s s' set j. ap (λ (t : Values). t j) (sym (values_inj set));
  get-expire =
      λ k e s s' n done j. inl (ap (λ (t : Values). t j) (sym (same_values (s k) n s s' done)));
  get-del = λ k s j. refl;
  del_count = λ k v s held. ap deletes held;
}

expires :
    (o : Option Bytes) (k : Bytes) (s : Values)
    → (n : ℕ) × (s' : Values) × (count_of o s ≡ some (n, s')) × (s' k ≡ s k)
expires none k s = (0, s, refl, refl)
expires (some v) k s = (1, s, refl, refl)

lasting : (e : ℕ) → IsLasting redis e
lasting e = record {
  set_accepts = λ k v s. ((λ j. if beq k j then some v else s j), refl);
  expire_keeps = λ k s. expires (s k) k s;
}

abbrev key : Bytes
key = bytes "job"

abbrev mine : Bytes
mine = bytes "a"

abbrev theirs : Bytes
theirs = bytes "bb"

abbrev free : Values
free j = none

abbrev held : Values
held j = if beq key j then some mine else none

abbrev their_calls : List (Call ℕ)
their_calls =
    record { key = key; value = theirs; task = locks 60 }
    ∷ record { key = key; value = theirs; task = unlocks }
    ∷ []

different : mine ≢ theirs
different e = omega (arith, ap (length {A = ℕ}) e)

foreign : All (IsForeign key mine) their_calls
foreign = (inr (refl, different), (inr (refl, different), tt))

run_calls-IsRefused_example :
    ((run_calls redis their_calls held).0 key ≡ some mine)
    × All (IsRefused key) (run_calls redis their_calls held).1
unfolding beq
run_calls-IsRefused_example =
    run_calls-IsRefused redis redis-IsRedis key mine their_calls held refl foreign

abbrev my_lock : Lock ℕ
my_lock = record { value = mine; key = key; expiration = 60 }

unlock-outcome_example :
    ((held key ≡ some mine)
      × ((unlock redis arrives my_lock held).1 ≡ none)
      × ((unlock redis arrives my_lock held).0 key ≡ none))
    ⊎ ((held key ≢ some mine) × (unlock redis arrives my_lock held ≡ (held, some lock_not_hold)))
unlock-outcome_example = unlock-outcome redis redis-IsRedis my_lock held

create_lock-retry_example :
    IsTaken redis redis-IsRedis 60
      (lasting 60)
      arrives
      key
      mine
      (run_calls redis their_calls
        (create_lock redis (reply_lost redis_error) key mine 60 free).0).0
create_lock-retry_example =
    create_lock-retry redis redis-IsRedis 60 (lasting 60) key mine free redis_error their_calls refl
      foreign

-- The first call gets lost, the second arrives.
abbrev world : ℕ → Round Values
world zero = record { is_cancelled = false; others = λ s. s; delivery = request_lost redis_error }
world (suc n) = record { is_cancelled = false; others = λ s. s; delivery = arrives }

abbrev twice : FixIntervalRetry ℕ
twice = record { interval = 1; max = 2; cnt = 0 }

lock_runs : lock redis next key mine 60 3 world twice free ≡ (held, some (inl my_lock))
unfolding lock lock_loop next create_lock eval lock_script
lock_runs = refl

lock-IsHeld_example : IsHeld redis redis-IsRedis 60 (lasting 60) key mine held my_lock
lock-IsHeld_example =
    lock-IsHeld redis redis-IsRedis 60 (lasting 60) next key mine 3 world twice free held my_lock
      lock_runs

-- A strategy of so many intervals.
abbrev countdown : ℕ → ℕ × Option ℕ
countdown zero = (zero, none)
countdown (suc n) = (n, some 1)

countdown_gives_up : (n interval : ℕ) → (countdown n).1 ≡ some interval → (countdown n).0 < n
countdown_gives_up zero interval e = cc
countdown_gives_up (suc n) interval e = omega arith

lock-HasEnded_example :
    (o : Lock ℕ ⊎ Error) × ((lock redis countdown key theirs 60 3 world 2 held).1 ≡ some o)
lock-HasEnded_example =
    lock-HasEnded redis countdown (λ n. n) countdown_gives_up key theirs 60 3 world 2 held
      (omega arith)

auto_refresh-blocked_example :
    (auto_refresh redis next my_lock
      (((λ s. s), ticked (request_lost deadline_exceeded))
        ∷ ((λ s. s), ticked (request_lost deadline_exceeded))
        ∷ ((λ s. s), unlocked)
        ∷ [])
      (held, waiting false twice)).1
    ≡ blocked
auto_refresh-blocked_example =
    auto_refresh-blocked redis next my_lock (λ s. s) (λ s. s) (request_lost deadline_exceeded)
      (request_lost deadline_exceeded) (((λ s. s), unlocked) ∷ []) held twice (inl refl) (inl refl)

abbrev late : (Values → Values) × Delivery
late = ((λ s. s), request_lost deadline_exceeded)

refresh_runs : refresh redis arrives my_lock held ≡ (held, none)
unfolding refresh eval refresh_script received beq
refresh_runs = refl
