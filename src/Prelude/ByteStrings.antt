-- ===== src/Prelude/ByteStrings.antt =====
-- Byte strings as lists of numbers: equality, the first place of a byte, and maps keyed by them.
use Prim.Native.Char.{code}
use Prim.Native.String.{String}
use Prim.Native.Nat.{ℕ, suc}
use mathlib.Core.Path.{◌≡◌, refl}
use mathlib.Core.Logic.{◌↔◌, ◌≢◌}
use mathlib.Core.Bool.{Bool, true, false, ◌&&◌}
use mathlib.Core.Option
use mathlib.Core.Option.{Option, none, some}
use mathlib.Core.List.{List, [], ◌∷◌, ◌++◌}
use native.Mathlib.Omega.{arith}
use go_study.Prelude.Numbers.{◌==◌, if◌then◌else◌}
use go_study.Prelude.Lists.{length, All}

abbrev pub Bytes : Type 0
Bytes = List ℕ

-- The bytes of an ASCII text.
abbrev pub bytes : String → Bytes
bytes String.[] = []
bytes (String.◌∷◌ c s) = code c ∷ bytes s

unfoldable pub beq : Bytes → Bytes → Bool
beq [] [] = true
beq (x ∷ xs) (y ∷ ys) = (x == y) && beq xs ys
beq _ _ = false

pub beq_iff : (xs ys : Bytes) → (beq xs ys ≡ true) ↔ (xs ≡ ys)
unfolding beq
beq_iff [] [] = ((λ _. refl), (λ _. refl))
beq_iff [] (y ∷ ys) = ((λ e. cc), (λ e. cc))
beq_iff (x ∷ xs) [] = ((λ e. cc), (λ e. cc))
beq_iff (x ∷ xs) (y ∷ ys) =
    ((λ e. ground (arith, beq_iff xs ys)), (λ e. ground (arith, beq_iff xs ys)))

pub beq_refl : (xs : Bytes) → beq xs xs ≡ true
beq_refl xs = (beq_iff xs xs).1 refl

-- `bytes.IndexByte`, with `none` for -1.
unfoldable pub index_byte : Bytes → ℕ → Option ℕ
index_byte [] c = none
index_byte (b ∷ bs) c = if b == c then some 0 else Option.map suc (index_byte bs c)

abbrev pub Lacks : ℕ → Bytes → Type 0
Lacks c = All (λ b. b ≢ c)

pub index_byte-append :
    (s rest : Bytes) (c : ℕ) → Lacks c s → index_byte (s ++ (c ∷ rest)) c ≡ some (length s)
unfolding index_byte
index_byte-append [] rest c h = ground arith
index_byte-append (b ∷ s) rest c h = ground (arith, index_byte-append s rest c h.1)

-- A map keyed by strings: its entries, with the place of a key kept when its value changes.
module _ {ℓ} {V : Type ℓ} where
  unfoldable pub lookup : Bytes → List (Bytes × V) → Option V
  lookup key [] = none
  lookup key ((place, val) ∷ rest) = if beq place key then some val else lookup key rest

  unfoldable pub insert : Bytes → V → List (Bytes × V) → List (Bytes × V)
  insert key new [] = (key, new) ∷ []
  insert key new ((place, old) ∷ rest) =
      if beq place key then (place, new) ∷ rest else (place, old) ∷ insert key new rest

  abbrev pub IsFresh : Bytes → List (Bytes × V) → Type 0
  IsFresh key m = All (λ e. e.0 ≢ key) m

  pub insert-fresh :
      (key : Bytes) (new : V) (m : List (Bytes × V))
      → IsFresh key m
      → insert key new m ≡ m ++ ((key, new) ∷ [])
  unfolding insert
  insert-fresh key new [] h = refl
  insert-fresh key new ((place, old) ∷ rest) (h, hs) =
      ground (arith, beq_iff place key, insert-fresh key new rest hs)

  pub lookup-insert :
      (key wanted : Bytes) (new : V) (m : List (Bytes × V))
      → lookup wanted (insert key new m) ≡ (if beq key wanted then some new else lookup wanted m)
  unfolding lookup insert
  lookup-insert key wanted new [] = refl
  lookup-insert key wanted new ((place, old) ∷ rest) = ground (
    arith,
    beq_iff place wanted,
    beq_iff place key,
    beq_iff key wanted,
    lookup-insert key wanted new rest,
  )
