-- ===== src/Prelude/Results.antt =====
-- A computation that yields a value, or stops with an error or a panic of type `E`.
use mathlib.Core.Path.{◌≡◌, refl}
use mathlib.Core.Logic.{◌⊎◌, inl, inr}

pub data Result {ι} (P : Type 0) (V : Type ι) : Type ι where
  ok : V → Result P V
  err : P → Result P V

-- A failure ends the chain.
infixl 5 ◌>>=◌
abbrev pub ◌>>=◌ {ι κ} :
    {P : Type 0} {V : Type ι} {W : Type κ} → Result P V → (V → Result P W) → Result P W
err p >>= next = err p
ok v >>= next = next v

pub Result-cases {ι} :
    {P : Type 0} {V : Type ι} (r : Result P V) → ((v : V) × (r ≡ ok v)) ⊎ ((p : P) × (r ≡ err p))
Result-cases (err p) = inr (p, refl)
Result-cases (ok v) = inl (v, refl)

-- Where a chain succeeds, its first step has, and the rest has from there.
pub >>=-eq-ok {ι κ} :
    {P : Type 0} {V : Type ι} {W : Type κ} (first : Result P V) (next : V → Result P W) {out : W}
    → (first >>= next) ≡ ok out
    → (v : V) × (first ≡ ok v) × (next v ≡ ok out)
>>=-eq-ok (err p) next whole = cc
>>=-eq-ok (ok v) next whole = (v, refl, whole)
