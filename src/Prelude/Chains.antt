-- ===== src/Prelude/Chains.antt =====
-- Middlewares around a handler: the loop that puts them on one after the other, and the nesting that
-- comes of it.
use mathlib.Core.Path.{◌≡◌, refl, sym, ap, ◌∙◌}
use mathlib.Core.List.{List, [], ◌∷◌, ◌++◌, reverse, reverse-cons, reverse-reverse}

module _ {ℓ} {H : Type ℓ} where
  -- `for _, m := range ms { h = m(h) }`
  unfoldable pub apply_all : List (H → H) → H → H
  apply_all [] h = h
  apply_all (m ∷ ms) h = apply_all ms (m h)

  -- The first middleware is the outermost one.
  abbrev pub nest : List (H → H) → H → H
  nest [] h = h
  nest (m ∷ ms) h = m (nest ms h)

  apply_all-append :
      (ms ns : List (H → H)) (h : H) → apply_all (ms ++ ns) h ≡ apply_all ns (apply_all ms h)
  unfolding apply_all
  apply_all-append [] ns h = refl
  apply_all-append (m ∷ ms) ns h = apply_all-append ms ns (m h)

  pub apply_all-reverse : (ms : List (H → H)) (h : H) → apply_all (reverse ms) h ≡ nest ms h
  unfolding apply_all
  apply_all-reverse [] h = refl
  apply_all-reverse (m ∷ ms) h =
      ap (λ l. apply_all l h) (reverse-cons m ms)
      ∙ apply_all-append (reverse ms) (m ∷ []) h
      ∙ ap m (apply_all-reverse ms h)

  pub apply_all-nest : (ms : List (H → H)) (h : H) → apply_all ms h ≡ nest (reverse ms) h
  apply_all-nest ms h =
      ap (λ l. apply_all l h) (sym (reverse-reverse ms)) ∙ apply_all-reverse (reverse ms) h
