-- ===== src/Annotations/Tests.antt =====
-- Annotations in comments of advanced/template/gen/testdata.
use go_study.Prelude.{◌≡◌, refl, none, some, [], ◌∷◌, List, bytes, ok, err, map, arith, index_byte}
use go_study.Annotations.{
  out_of_range, Annotation, get, has_prefix, extract_content, new_annotations,
}
use go_study.Annotations.Printed.{Item, line, block, marked, plain, print, new_annotations-print}

abbrev client : Annotation
client = record { key = bytes "HttpClient"; value = [] }

abbrev path : Annotation
path = record { key = bytes "Path"; value = bytes "/user/get by id" }

abbrev comments : List Item
comments = plain line (bytes "UserService") ∷ marked block client ∷ marked line path ∷ []

found :
    new_annotations
      (some (bytes "// @HttpClient" ∷ bytes "//@Skipped" ∷ bytes "// @Path /user" ∷ []))
    ≡ ok (client ∷ record path { value = bytes "/user" } ∷ [])
unfolding new_annotations index_byte
found = refl

nothing_found : new_annotations none ≡ ok []
unfolding new_annotations
nothing_found = refl

get_path : get (bytes "Path") (client ∷ path ∷ []) ≡ some path
unfolding get
get_path = refl

-- A Go comment that begins so has five bytes at least.
too_short : extract_content (bytes "/* ") ≡ err out_of_range
unfolding extract_content
too_short = refl

new_annotations-print_example :
    new_annotations (some (map print comments)) ≡ ok (client ∷ path ∷ [])
unfolding has_prefix
new_annotations-print_example =
    new_annotations-print comments (refl, (ground arith, (ground arith, tt)))
