-- ===== src/Orm/Balanced.antt =====
-- orm/homework3/builder.go: the steps of a builder that write a placeholder for each argument.
use go_study.Prelude.{
  ℕ, ◌-◌, false, ◌==◌, [], ◌∷◌, ◌++◌, Result, ok, err, ◌>>=◌, Bytes, length, take, ◌≡◌, refl, sym,
  ap, subst, length-append, take-append, arith, append-nil,
}
use go_study.Orm.Syntax.{RawExpr}
use go_study.Orm.Output.{Error, Out, Write, ◌▷◌, text, silent, add_args, quote, build_as}
use go_study.Orm.Select.{raw, paren, cut_last}
use go_study.Orm.Clean.{marks, marks-append, HasNoMark, IsCleanRaw}

module _ {A : Type 0} where
  -- What is written has a placeholder for each argument, and no other.
  pub record IsBalanced (w : Write A) : Type 0 where
    pub counts : (o : Out A) → w ≡ ok o → marks o.sql ≡ length o.args

  ok-IsBalanced : (o : Out A) → marks o.sql ≡ length o.args → IsBalanced (ok o)
  ok-IsBalanced o h = record { counts = λ o' e. subst (λ x. marks x.sql ≡ length x.args) (inj e) h }
    where
      inj : {o' : Out A} → ◌≡◌ {A = Write A} (ok o) (ok o') → o ≡ o'
      inj e = cc

  infixl 6 ◌▶◌
  pub ◌▶◌ : {a b : Write A} → IsBalanced a → IsBalanced b → IsBalanced (a ▷ b)
  unfolding ◌▷◌
  ◌▶◌ {a = ok x} {b = ok y} p q =
      ok-IsBalanced (record { sql = x.sql ++ y.sql; args = x.args ++ y.args })
        (omega (
          arith,
          marks-append x.sql y.sql,
          length-append x.args y.args,
          p.counts x refl,
          q.counts y refl,
        ))
  ◌▶◌ {a = ok x} {b = err e} p q = record { counts = λ o h. cc }
  ◌▶◌ {a = err e} {b = b} p q = record { counts = λ o h. cc }

  pub bind-IsBalanced {ℓ} :
      {X : Type ℓ} (r : Result Error X) {f : X → Write A}
      → ((x : X) → r ≡ ok x → IsBalanced (f x))
      → IsBalanced (r >>= f)
  bind-IsBalanced (ok x) h = h x refl
  bind-IsBalanced (err e) h = record { counts = λ o q. cc }

  pub err-IsBalanced : (e : Error) → IsBalanced (err e)
  err-IsBalanced e = record { counts = λ o q. cc }

  pub text-IsBalanced : (s : Bytes) → HasNoMark s → IsBalanced (text s)
  unfolding text
  text-IsBalanced s h = ok-IsBalanced (record { sql = s; args = [] }) h

  pub silent-IsBalanced : IsBalanced silent
  unfolding silent
  silent-IsBalanced = ok-IsBalanced (record { sql = []; args = [] }) refl

  pub raw-IsBalanced : (r : RawExpr A) → IsCleanRaw r → IsBalanced (raw r)
  unfolding raw text add_args ◌▷◌
  raw-IsBalanced r h =
      ok-IsBalanced (record { sql = r.raw ++ []; args = r.args }) (rw (append-nil r.raw) h)

  -- A placeholder, and its argument.
  pub mark-IsBalanced : (s : Bytes) (v : A) → marks s ≡ 1 → IsBalanced (text s ▷ add_args (v ∷ []))
  unfolding text add_args ◌▷◌
  mark-IsBalanced s v h =
      ok-IsBalanced (record { sql = s ++ []; args = v ∷ [] }) (rw (append-nil s) h)

  pub paren-IsBalanced : {w : Write A} → IsBalanced w → IsBalanced (paren w)
  unfolding paren
  paren-IsBalanced h = text-IsBalanced _ refl ▶ h ▶ text-IsBalanced _ refl

  module _ (quoter : ℕ) (plain : (quoter == b'?') ≡ false) where
    pub quote-IsBalanced : (s : Bytes) → HasNoMark s → IsBalanced (quote quoter s)
    unfolding quote
    quote-IsBalanced s h =
        ok-IsBalanced (record { sql = quoter ∷ (s ++ (quoter ∷ [])); args = [] })
          (rw plain (rw (marks-append s (quoter ∷ [])) (rw h (rw plain refl))))

    pub build_as-IsBalanced : (s : Bytes) → HasNoMark s → IsBalanced (build_as quoter s)
    unfolding build_as
    build_as-IsBalanced [] h = silent-IsBalanced
    build_as-IsBalanced (c ∷ cs) h = text-IsBalanced _ refl ▶ quote-IsBalanced (c ∷ cs) h

  -- A text that ends in a semicolon, with the semicolon taken off.
  pub cut_last-IsBalanced :
      (q : Out A) (front : Bytes)
      → q.sql ≡ front ++ (b';' ∷ [])
      → marks q.sql ≡ length q.args
      → IsBalanced (cut_last q)
  unfolding cut_last
  cut_last-IsBalanced q front e h =
      ok-IsBalanced (record { sql = take (length q.sql - 1) q.sql; args = q.args })
        (subst (λ x. marks (take (length x - 1) x) ≡ length q.args) (sym e)
          (rw (shorter, take-append front (b';' ∷ []))
            (omega (arith, marks-append front (b';' ∷ []), ap marks e, h))))
    where
      shorter : length (front ++ (b';' ∷ [])) - 1 ≡ length front
      shorter = omega (arith, length-append front (b';' ∷ []))
