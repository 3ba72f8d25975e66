-- ===== src/Orm/Registry/Tags.antt =====
-- orm/homework3/model/registry.go: what a field with pairs in its tag, and a name, has as its column.
use go_study.Prelude.{
  ℕ, ◌+◌, ◌==◌, true, false, Option, none, some, List, [], ◌∷◌, ◌++◌, ◌≡◌, inl, inr, refl, sym, ap,
  ◌∙◌, if◌then◌else◌, bytes, insert, map, append_assoc, arith, Bool-cases, Option-cases, ok, Bytes,
  beq, lookup, lookup-insert, All,
}
use go_study.Orm.Output.{Field}
use go_study.Orm.Registry.{
  FieldType, field_of, or_underscore, is_upper, underscore_from, underscore_name, split_at,
  parse_pairs, parse_tag, add_to_first,
}

-- A pair of a tag and its text; the text of a tag.
abbrev pub pair_text : Bytes × Bytes → Bytes
pair_text (key, val) = key ++ (b'=' ∷ val)

abbrev pub tag_text : List (Bytes × Bytes) → Bytes
tag_text [] = []
tag_text (p ∷ []) = pair_text p
tag_text (p ∷ q ∷ ps) = pair_text p ++ (b',' ∷ tag_text (q ∷ ps))

-- A text without the bytes that a tag is cut at.
abbrev pub IsPlain : Bytes → Type 0
IsPlain = All (λ b. (b == b',' ≡ false) × (b == b'=' ≡ false))

-- A field with the pairs of its tag.
pub record Tagged : Type 0 where
  pub name : Bytes
  pub pairs : List (Bytes × Bytes)

abbrev pub field_type : Tagged → FieldType
field_type t = record { name = t.name; orm_tag = tag_text t.pairs }

-- A name in small letters, with an underscore in front of each capital but a first one.
abbrev pub lowered : ℕ → ℕ
lowered v = if is_upper v then v + 32 else v

abbrev pub marked : Bytes → Bytes
marked [] = []
marked (v ∷ vs) = (if is_upper v then b'_' ∷ [] else []) ++ (lowered v ∷ marked vs)

abbrev pub underscored : Bytes → Bytes
underscored [] = []
underscored (v ∷ vs) = lowered v ∷ marked vs

-- What the last pair with the key "column" says.
abbrev pub last_column : List (Bytes × Bytes) → Option Bytes
last_column [] = none
last_column ((key, val) ∷ ps) = elim (last_column ps) [
  | some v ↦ some v
  | none ↦ if beq key (bytes "column") then some val else none
]

abbrev pub column_or : Bytes → Option Bytes → Bytes
column_or name none = underscored name
column_or name (some []) = underscored name
column_or name (some (c ∷ cs)) = c ∷ cs

abbrev pub expected_column : Tagged → Bytes
expected_column t = column_or t.name (last_column t.pairs)

underscore_from-marked : (vs : Bytes) → underscore_from false vs ≡ marked vs
unfolding underscore_from
underscore_from-marked [] = refl
underscore_from-marked (v ∷ vs) = elim (Bool-cases (is_upper v)) [
  | inl up ↦ rw (up, underscore_from) (ap (λ l. b'_' ∷ (v + 32) ∷ l) (underscore_from-marked vs))
  | inr low ↦ rw (low, underscore_from) (ap (λ l. v ∷ l) (underscore_from-marked vs))
]

underscore_name-underscored : (name : Bytes) → underscore_name name ≡ underscored name
unfolding underscore_name underscore_from
underscore_name-underscored [] = refl
underscore_name-underscored (v ∷ vs) = elim (Bool-cases (is_upper v)) [
  | inl up ↦ rw (up, underscore_from) (ap (λ l. (v + 32) ∷ l) (underscore_from-marked vs))
  | inr low ↦ rw (low, underscore_from) (ap (λ l. v ∷ l) (underscore_from-marked vs))
]

or_underscore-column_or :
    (name : Bytes) (o : Option Bytes) → or_underscore name o ≡ column_or name o
or_underscore-column_or name none = underscore_name-underscored name
or_underscore-column_or name (some []) = underscore_name-underscored name
or_underscore-column_or name (some (c ∷ cs)) = refl

-- Cutting a text that does not have the byte, and one that has it behind such a text.
abbrev IsFree : ℕ → Bytes → Type 0
IsFree sep = All (λ b. b == sep ≡ false)

split_at_free : (sep : ℕ) (xs : Bytes) → IsFree sep xs → split_at sep xs ≡ xs ∷ []
unfolding split_at add_to_first
split_at_free sep [] h = refl
split_at_free sep (x ∷ xs) (other, h) =
    rw (other, split_at) (ap (add_to_first x) (split_at_free sep xs h))

same_byte : (b : ℕ) → b == b ≡ true
same_byte b = ground arith

split_at_byte :
    (sep : ℕ) (xs ys : Bytes)
    → IsFree sep xs
    → split_at sep (xs ++ (sep ∷ ys)) ≡ xs ∷ split_at sep ys
unfolding split_at add_to_first
split_at_byte sep [] ys h = rw (same_byte sep, split_at) refl
split_at_byte sep (x ∷ xs) ys (other, h) =
    rw (other, split_at) (ap (add_to_first x) (split_at_byte sep xs ys h))

IsFree-commas : (xs : Bytes) → IsPlain xs → IsFree b',' xs
IsFree-commas [] h = tt
IsFree-commas (x ∷ xs) ((c, e), h) = (c, IsFree-commas xs h)

IsFree-equals : (xs : Bytes) → IsPlain xs → IsFree b'=' xs
IsFree-equals [] h = tt
IsFree-equals (x ∷ xs) ((c, e), h) = (e, IsFree-equals xs h)

abbrev pub IsPlainPair : Bytes × Bytes → Type 0
IsPlainPair (key, val) = IsPlain key × IsPlain val

pair_text-IsFree :
    (key val : Bytes) → IsPlain key → IsPlain val → IsFree b',' (pair_text (key, val))
pair_text-IsFree [] val h k = (refl, IsFree-commas val k)
pair_text-IsFree (x ∷ key) val ((c, e), h) k = (c, pair_text-IsFree key val h k)

split_at-tag_text :
    (p : Bytes × Bytes) (ps : List (Bytes × Bytes))
    → All IsPlainPair (p ∷ ps)
    → split_at b',' (tag_text (p ∷ ps)) ≡ map pair_text (p ∷ ps)
split_at-tag_text (key, val) [] ((h, k), hs) = split_at_free b',' _ (pair_text-IsFree key val h k)
split_at-tag_text (key, val) (q ∷ ps) ((h, k), hs) =
    split_at_byte b',' (pair_text (key, val)) (tag_text (q ∷ ps)) (pair_text-IsFree key val h k)
    ∙ ap (λ l. pair_text (key, val) ∷ l) (split_at-tag_text q ps hs)

abbrev insert_all : List (Bytes × Bytes) → List (Bytes × Bytes) → List (Bytes × Bytes)
insert_all [] res = res
insert_all ((key, val) ∷ ps) res = insert_all ps (insert key val res)

parse_pairs-pair_text :
    (ps res : List (Bytes × Bytes))
    → All IsPlainPair ps
    → parse_pairs (map pair_text ps) res ≡ ok (insert_all ps res)
unfolding parse_pairs
parse_pairs-pair_text [] res h = refl
parse_pairs-pair_text ((key, val) ∷ ps) res ((h, k), hs) =
    let cut : split_at b'=' (pair_text (key, val)) ≡ key ∷ val ∷ [] =
      split_at_byte b'=' key val (IsFree-equals key h)
      ∙ ap (λ l. key ∷ l) (split_at_free b'=' val (IsFree-equals val k)) in
    rw (cut, parse_pairs) (parse_pairs-pair_text ps (insert key val res) hs)

parse_tag-pairs :
    (key w : Bytes)
    → parse_tag (key ++ (b'=' ∷ w)) ≡ parse_pairs (split_at b',' (key ++ (b'=' ∷ w))) []
unfolding parse_tag
parse_tag-pairs [] w = refl
parse_tag-pairs (b ∷ bs) w = refl

parse_tag-tag_text :
    (ps : List (Bytes × Bytes))
    → All IsPlainPair ps
    → parse_tag (tag_text ps) ≡ ok (insert_all ps [])
unfolding parse_tag
parse_tag-tag_text [] h = refl
parse_tag-tag_text ((key, val) ∷ []) h =
    parse_tag-pairs key val
    ∙ ap (λ l. parse_pairs l []) (split_at-tag_text (key, val) [] h)
    ∙ parse_pairs-pair_text ((key, val) ∷ []) [] h
parse_tag-tag_text ((key, val) ∷ q ∷ ps) h =
    ap parse_tag (append_assoc key (b'=' ∷ val) (b',' ∷ tag_text (q ∷ ps)))
    ∙ parse_tag-pairs key (val ++ (b',' ∷ tag_text (q ∷ ps)))
    ∙ ap (λ t. parse_pairs (split_at b',' t) [])
        (sym (append_assoc key (b'=' ∷ val) (b',' ∷ tag_text (q ∷ ps))))
    ∙ ap (λ l. parse_pairs l []) (split_at-tag_text (key, val) (q ∷ ps) h)
    ∙ parse_pairs-pair_text ((key, val) ∷ q ∷ ps) [] h

lookup-insert_all :
    (ps res : List (Bytes × Bytes))
    → lookup (bytes "column") (insert_all ps res)
      ≡ elim (last_column ps) [ some v ↦ some v | none ↦ lookup (bytes "column") res ]
lookup-insert_all [] res = refl
lookup-insert_all ((key, val) ∷ ps) res =
    lookup-insert_all ps (insert key val res) ∙ (elim (Option-cases (last_column ps)) [
      | inr (v, e) ↦ rw e refl
      | inl e ↦ rw e (
          lookup-insert key (bytes "column") val res
          ∙ (elim (Bool-cases (beq key (bytes "column"))) [
            | inl same ↦ rw same refl
            | inr other ↦ rw other refl
          ]))
    ])

abbrev pub made_field : Tagged → Field
made_field t = record { go_name = t.name; col_name = expected_column t }

pub field_of-field_type :
    (t : Tagged) → All IsPlainPair t.pairs → field_of (field_type t) ≡ ok (made_field t)
unfolding field_of lookup
field_of-field_type t h =
    let tags = parse_tag-tag_text t.pairs h in
    let found : lookup (bytes "column") (insert_all t.pairs []) ≡ last_column t.pairs =
      lookup-insert_all t.pairs [] ∙ (elim (Option-cases (last_column t.pairs)) [
        | inl e ↦ rw e refl
        | inr (v, e) ↦ rw e refl
      ]) in
    rw (tags, field_of)
      (ap (λ n. ok (record { go_name = t.name; col_name = n }))
        (ap (or_underscore t.name) found ∙ or_underscore-column_or t.name (last_column t.pairs)))
