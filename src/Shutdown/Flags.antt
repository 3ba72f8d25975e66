-- ===== src/Shutdown/Flags.antt =====
-- advanced/graceful_shutdown: the flags of the servers, as they are written and as they are seen.
use go_study.Prelude.{
  ℕ, zero, suc, ◌≡◌, refl, subst, inl, inr, Bool, true, false, Option, none, some, List, [], ◌∷◌,
  arith, if◌then◌else◌, All, Option-cases, get_elem?,
}
use mathlib.Core.Option.{some-injective}
use go_study.Shutdown.Steps.{Server, reject_at, see_at}

pub some-map :
    {A B : Type 0} (f : A → B) (o : Option A) (b : B)
    → elim o [ none ↦ none | some a ↦ some (f a) ] ≡ some b
    → (a : A) × (o ≡ some a) × (f a ≡ b)
some-map f none b e = absurd (ground (arith, e))
some-map f (some a) b e = (a, refl, some-injective _ _ e)

pub some-if :
    {A : Type 0} (b : Bool) (x y : A) → (if b then some x else none) ≡ some y → (b ≡ true) × (x ≡ y)
some-if false x y e = absurd (ground (arith, e))
some-if true x y e = (refl, some-injective _ _ e)

abbrev pub IsRejecting : {M : Type 0} → Server M → Type 0
IsRejecting srv = srv.reject ≡ true

abbrev pub FirstReject : {M : Type 0} → ℕ → List (Server M) → Type 0
FirstReject zero srvs = Unit
FirstReject (suc i) [] = Unit
FirstReject (suc i) (srv ∷ srvs) = IsRejecting srv × FirstReject i srvs

pub reject_at-FirstReject :
    {M : Type 0} (i : ℕ) (srvs after : List (Server M))
    → FirstReject i srvs
    → reject_at i srvs ≡ some after
    → FirstReject (suc i) after
unfolding reject_at
reject_at-FirstReject i [] after h e = absurd (ground (arith, e))
reject_at-FirstReject zero (srv ∷ srvs) after h e =
    subst (FirstReject 1) (some-injective _ _ e) (refl, tt)
reject_at-FirstReject (suc i) (srv ∷ srvs) after (h, hs) e =
    let (rest, found, made) = some-map (λ rest. srv ∷ rest) (reject_at i srvs) after e in
    subst (FirstReject (suc (suc i))) made (h, reject_at-FirstReject i srvs rest hs found)

pub reject_at_past :
    {M : Type 0} (i : ℕ) (srvs : List (Server M))
    → FirstReject i srvs
    → reject_at i srvs ≡ none
    → All IsRejecting srvs
unfolding reject_at
reject_at_past i [] h e = tt
reject_at_past zero (srv ∷ srvs) h e = absurd (ground (arith, e))
reject_at_past (suc i) (srv ∷ srvs) (h, hs) e = elim (Option-cases (reject_at i srvs)) [
  | inl past ↦ (h, reject_at_past i srvs hs past)
  | inr (rest, found) ↦ absurd (ground (arith, e, found))
]

-- A server that is seen to refuse refuses as before.
pub see_at-FirstReject :
    {M : Type 0} (j i : ℕ) (srvs after : List (Server M))
    → see_at i srvs ≡ some after
    → FirstReject j srvs
    → FirstReject j after
unfolding see_at
see_at-FirstReject j i [] after e h = absurd (ground (arith, e))
see_at-FirstReject zero i (srv ∷ srvs) after e h = tt
see_at-FirstReject (suc j) zero (srv ∷ srvs) after e (h, hs) =
    subst (FirstReject (suc j)) (some-injective _ _ e) (h, hs)
see_at-FirstReject (suc j) (suc i) (srv ∷ srvs) after e (h, hs) =
    let (rest, found, made) = some-map (λ rest. srv ∷ rest) (see_at i srvs) after e in
    subst (FirstReject (suc j)) made (h, see_at-FirstReject j i srvs rest found hs)

pub see_at-IsRejecting :
    {M : Type 0} (i : ℕ) (srvs after : List (Server M))
    → see_at i srvs ≡ some after
    → All IsRejecting srvs
    → All IsRejecting after
unfolding see_at
see_at-IsRejecting i [] after e h = absurd (ground (arith, e))
see_at-IsRejecting zero (srv ∷ srvs) after e (h, hs) =
    subst (All IsRejecting) (some-injective _ _ e) (h, hs)
see_at-IsRejecting (suc i) (srv ∷ srvs) after e (h, hs) =
    let (rest, found, made) = some-map (λ rest. srv ∷ rest) (see_at i srvs) after e in
    subst (All IsRejecting) made (h, see_at-IsRejecting i srvs rest found hs)

abbrev pub IsSeen : {M : Type 0} → Server M → Type 0
IsSeen srv = srv.seen ≡ true

-- A server whose refusal is written, and seen.
abbrev pub IsRefusing : {M : Type 0} → Server M → Type 0
IsRefusing srv = IsRejecting srv × IsSeen srv

pub all-IsRefusing :
    {M : Type 0} (srvs : List (Server M))
    → All IsRejecting srvs
    → All IsSeen srvs
    → All IsRefusing srvs
all-IsRefusing [] h k = tt
all-IsRefusing (srv ∷ srvs) (h, hs) (k, ks) = ((h, k), all-IsRefusing srvs hs ks)

pub server-IsRefusing :
    {M : Type 0} (srvs : List (Server M)) (i : ℕ) (srv : Server M)
    → All IsRefusing srvs
    → get_elem? srvs i ≡ some srv
    → IsRefusing srv
server-IsRefusing [] i srv h e = absurd (ground (arith, e))
server-IsRefusing (s ∷ srvs) zero srv (h, hs) e = subst IsRefusing (some-injective _ _ e) h
server-IsRefusing (s ∷ srvs) (suc i) srv (h, hs) e = server-IsRefusing srvs i srv hs e

-- No server stops refusing.
pub see_at-IsRefusing :
    {M : Type 0} (i : ℕ) (srvs after : List (Server M))
    → see_at i srvs ≡ some after
    → All IsRefusing srvs
    → All IsRefusing after
unfolding see_at
see_at-IsRefusing i [] after e h = absurd (ground (arith, e))
see_at-IsRefusing zero (srv ∷ srvs) after e ((h, seen), hs) =
    subst (All IsRefusing) (some-injective _ _ e) ((h, h), hs)
see_at-IsRefusing (suc i) (srv ∷ srvs) after e (h, hs) =
    let (rest, found, made) = some-map (λ rest. srv ∷ rest) (see_at i srvs) after e in
    subst (All IsRefusing) made (h, see_at-IsRefusing i srvs rest found hs)

pub reject_at-IsRefusing :
    {M : Type 0} (i : ℕ) (srvs after : List (Server M))
    → reject_at i srvs ≡ some after
    → All IsRefusing srvs
    → All IsRefusing after
unfolding reject_at
reject_at-IsRefusing i [] after e h = absurd (ground (arith, e))
reject_at-IsRefusing zero (srv ∷ srvs) after e ((h, seen), hs) =
    subst (All IsRefusing) (some-injective _ _ e) ((refl, seen), hs)
reject_at-IsRefusing (suc i) (srv ∷ srvs) after e (h, hs) =
    let (rest, found, made) = some-map (λ rest. srv ∷ rest) (reject_at i srvs) after e in
    subst (All IsRefusing) made (h, reject_at-IsRefusing i srvs rest found hs)
