-- ===== src/Annotations.antt =====
-- advanced/template/gen/annotation/annotation.go: the annotations in the comments of a declaration.
-- A comment group is the list of the texts of its comments, or nil. `err` is a Go panic.
pub mod Printed
mod Tests
use go_study.Prelude.{
  ℕ, suc, ◌+◌, ◌-◌, Bool, true, false, ◌&&◌, Option, none, some, List, [], ◌∷◌, leb, ◌==◌,
  if◌then◌else◌, Result, ok, err, ◌>>=◌, length, take, drop, Bytes, bytes, beq, index_byte,
}

pub data Panic : Type 0 where
  out_of_range : Panic

pub record Annotation : Type 0 where
  pub key : Bytes
  pub value : Bytes

-- `Annotations.Get`
unfoldable pub get : Bytes → List Annotation → Option Annotation
unfolding beq
get key [] = none
get key (a ∷ ans) = if beq a.key key then some a else get key ans

-- `strings.HasPrefix(text, prefix)`, with the prefix first.
unfoldable pub has_prefix : Bytes → Bytes → Bool
has_prefix [] text = true
has_prefix (c ∷ cs) [] = false
has_prefix (c ∷ cs) (b ∷ bs) = (c == b) && has_prefix cs bs

-- `text[lo:hi]`
unfoldable pub slice : ℕ → ℕ → Bytes → Result Panic Bytes
slice lo hi text =
    if leb lo hi && leb hi (length text)
    then ok (take (hi - lo) (drop lo text))
    else err out_of_range

-- `extractContent`; `length - 2` is not negative behind the prefix.
unfoldable pub extract_content : Bytes → Result Panic (Option Bytes)
unfolding has_prefix slice
extract_content text =
    if has_prefix (bytes "// ") text
    then ok (some (drop 3 text))
    else if has_prefix (bytes "/* ") text
    then (slice 3 (length text - 2) text >>= λ content. ok (some content))
    else ok none

-- `strings.SplitN(text, " ", 2)`, and the key and the value in it.
unfoldable pub parse : Bytes → Annotation
unfolding index_byte
parse text = elim (index_byte text b' ') [
  | none ↦ record { key = drop 1 text; value = [] }
  | some i ↦ record { key = drop 1 (take i text); value = drop (i + 1) text }
]

unfoldable pub add : Option Bytes → List Annotation → List Annotation
unfolding has_prefix parse
add none ans = ans
add (some text) ans = if has_prefix (bytes "@") text then parse text ∷ ans else ans

-- The loop of `newAnnotations`.
unfoldable pub collect : List Bytes → Result Panic (List Annotation)
unfolding extract_content add
collect [] = ok []
collect (c ∷ cs) = do text ← extract_content c; ans ← collect cs; ok (add text ans)

-- `newAnnotations`
unfoldable pub new_annotations : Option (List Bytes) → Result Panic (List Annotation)
unfolding collect
new_annotations none = ok []
new_annotations (some comments) = collect comments
