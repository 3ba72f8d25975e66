-- ===== src/Annotations/Printed.antt =====
-- advanced/template/gen/annotation: comments that were written, and what is found in them.
use go_study.Prelude.{
  suc, ◌+◌, ◌-◌, ◌≡◌, refl, sym, ap, ◌∙◌, true, false, some, List, [], ◌∷◌, ◌++◌, map, arith, leb,
  le→leb, ok, ◌>>=◌, length, drop, Bytes, bytes, index_byte, index_byte-append, Lacks, take-append,
  drop-append, length-append, All, append_assoc,
}
use go_study.Annotations.{
  Annotation, has_prefix, slice, extract_content, parse, add, collect, new_annotations,
}

-- A line comment, or one in `/* */`.
pub data Style : Type 0 where
  line block : Style

-- A comment that holds an annotation, or another text.
pub data Item : Type 0 where
  marked : Style → Annotation → Item
  plain : Style → Bytes → Item

abbrev pub comment : Style → Bytes → Bytes
comment line text = bytes "// " ++ text
comment block text = bytes "/* " ++ (text ++ bytes "*/")

abbrev pub marked_text : Annotation → Bytes
marked_text a = b'@' ∷ (a.key ++ (b' ' ∷ a.value))

abbrev pub print : Item → Bytes
print (marked s a) = comment s (marked_text a)
print (plain s text) = comment s text

abbrev pub annotations_of : List Item → List Annotation
annotations_of [] = []
annotations_of (marked s a ∷ items) = a ∷ annotations_of items
annotations_of (plain s text ∷ items) = annotations_of items

abbrev pub IsPrintable : Item → Type 0
IsPrintable (marked s a) = Lacks b' ' a.key
IsPrintable (plain s text) = has_prefix (bytes "@") text ≡ false

-- What stands between the first three bytes and the last two.
slice-block :
    (text : Bytes) → slice 3 (length (comment block text) - 2) (comment block text) ≡ ok text
unfolding slice
slice-block text =
    let len : length (comment block text) ≡ 5 + length text =
      omega (arith, length-append text (bytes "*/")) in
    let lo : leb 3 (length (comment block text) - 2) ≡ true = le→leb 3 _ (omega (arith, len)) in
    let hi : leb (length (comment block text) - 2) (length (comment block text)) ≡ true =
      le→leb (length (comment block text) - 2) (length (comment block text)) (omega arith) in
    let width : length (comment block text) - 2 - 3 ≡ length text = omega (arith, len) in
    rw (lo, slice) (rw hi (rw width (ap ok (take-append text (bytes "*/")))))

extract_content-comment :
    (s : Style) (text : Bytes) → extract_content (comment s text) ≡ ok (some text)
unfolding extract_content has_prefix slice
extract_content-comment line text = refl
extract_content-comment block text = ap (λ r. r >>= λ content. ok (some content)) (slice-block text)

parse-marked_text : (a : Annotation) → Lacks b' ' a.key → parse (marked_text a) ≡ a
unfolding parse
parse-marked_text a clean =
    let found : index_byte (marked_text a) b' ' ≡ some (suc (length a.key)) =
      index_byte-append (b'@' ∷ a.key) a.value b' ' ((λ e. omega (arith, e)), clean) in
    let mark : Bytes = b'@' ∷ (a.key ++ (b' ' ∷ [])) in
    let size : suc (length a.key) + 1 ≡ length mark =
      omega (arith, length-append a.key (b' ' ∷ [])) in
    let value : drop (suc (length a.key) + 1) (marked_text a) ≡ a.value =
      ap (λ n. drop n (marked_text a)) size
      ∙ ap (λ l. drop (length mark) (b'@' ∷ l)) (sym (append_assoc a.key (b' ' ∷ []) a.value))
      ∙ drop-append mark a.value in
    rw (found, parse) (λ i. record { key = take-append a.key (b' ' ∷ a.value) i; value = value i })

collect-cons :
    (c text : Bytes) (cs : List Bytes) (ans : List Annotation)
    → extract_content c ≡ ok (some text)
    → collect cs ≡ ok ans
    → collect (c ∷ cs) ≡ ok (add (some text) ans)
unfolding collect
collect-cons c text cs ans e rest = rw (e, collect) (rw rest refl)

-- What the comments of a declaration hold, line comments or not, annotations among other texts in any
-- order, is found again: exactly the annotations, in their order. Their keys hold no space, and no
-- other text begins with "@".
pub new_annotations-print :
    (items : List Item)
    → All IsPrintable items
    → new_annotations (some (map print items)) ≡ ok (annotations_of items)
unfolding new_annotations collect add has_prefix
new_annotations-print [] printable = refl
new_annotations-print (marked s a ∷ items) (clean, rest) =
    collect-cons (comment s (marked_text a)) (marked_text a) (map print items)
      (annotations_of items) (extract_content-comment s (marked_text a))
      (new_annotations-print items rest)
    ∙ ap (λ b. ok (b ∷ annotations_of items)) (parse-marked_text a clean)
new_annotations-print (plain s text ∷ items) (other, rest) =
    collect-cons (comment s text) text (map print items) (annotations_of items)
      (extract_content-comment s text) (new_annotations-print items rest)
    ∙ rw (other, add) refl
