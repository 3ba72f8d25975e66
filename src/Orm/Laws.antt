-- ===== src/Orm/Laws.antt =====
-- The steps of a builder, one after another, as a monoid.
use go_study.Prelude.{◌≡◌, refl, ap, ok, err, List, append_assoc, append-nil, Bytes}
use go_study.Orm.Output.{Out, Write, ◌▷◌, silent}

module _ {A : Type 0} where
  pub out_ap :
      {s s' : Bytes} {args args' : List A}
      → s ≡ s'
      → args ≡ args'
      → ◌≡◌ {A = Out A} (record { sql = s; args = args }) (record { sql = s'; args = args' })
  out_ap p q i = record { sql = p i; args = q i }

  pub ▷_assoc : (u v w : Write A) → u ▷ v ▷ w ≡ u ▷ (v ▷ w)
  unfolding ◌▷◌
  ▷_assoc (err e) v w = refl
  ▷_assoc (ok a) (err e) w = refl
  ▷_assoc (ok a) (ok b) (err e) = refl
  ▷_assoc (ok a) (ok b) (ok c) =
      ap ok (out_ap (append_assoc a.sql b.sql c.sql) (append_assoc a.args b.args c.args))

  pub ▷-silent : (w : Write A) → w ▷ silent ≡ w
  unfolding ◌▷◌ silent
  ▷-silent (err e) = refl
  ▷-silent (ok a) = ap ok (out_ap (append-nil a.sql) (append-nil a.args))

  pub silent-▷ : (w : Write A) → silent ▷ w ≡ w
  unfolding ◌▷◌ silent
  silent-▷ (err e) = refl
  silent-▷ (ok a) = refl
