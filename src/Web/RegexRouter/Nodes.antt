-- ===== src/Web/RegexRouter/Nodes.antt =====
-- web/homework1/route.go: the kind of a segment, and the child that a segment gets or leads to.
use mathlib.Core.Option
use go_study.Prelude.{
  Bool, true, false, Option, none, some, [], ◌∷◌, ◌==◌, ◌&&◌, if◌then◌else◌, Result, ok, err, Bytes,
  beq,
}
use go_study.Web.Router.{star_path, is_param, tail_bytes}
use go_study.Web.RegexRouter.{
  Regexp, Panic, bad_regexp, Node, node, absent, present, Slot, info, get_child, create_star,
  create_reg, create_param, create_static,
}

-- `strings.HasSuffix(path, ")")`
unfoldable pub ends_in_paren : Bytes → Bool
ends_in_paren [] = false
ends_in_paren (b ∷ []) = b == 41
ends_in_paren (b ∷ c ∷ bs) = ends_in_paren (c ∷ bs)

-- `strings.Contains(path, "(")`
unfoldable pub has_paren : Bytes → Bool
has_paren [] = false
has_paren (b ∷ bs) = let rest = has_paren bs in if b == 40 then true else rest

-- `path[:len(path)-1]`
unfoldable pub cut_last_byte : Bytes → Bytes
cut_last_byte [] = []
cut_last_byte (b ∷ []) = []
cut_last_byte (b ∷ c ∷ bs) = b ∷ cut_last_byte (c ∷ bs)

-- `strings.SplitN(s, "(", 2)`, of a text that has one.
unfoldable pub split_paren : Bytes → Bytes × Bytes
split_paren [] = ([], [])
split_paren (b ∷ bs) =
    let (name, expr) = split_paren bs in if b == 40 then ([], bs) else (b ∷ name, expr)

-- A nil expression is met nowhere: a regChild is made with one.
abbrev pub or_false : Option Bool → Bool
or_false none = false
or_false (some b) = b

module _ {R : Type 0} (rx : Regexp R) where
  compiled : Bytes → Bytes × Bytes → Result Panic (Option (Bytes × R))
  compiled path (name, expr) = elim (rx.must_compile expr) [
    | none ↦ err (bad_regexp path)
    | some r ↦ ok (some (name, r))
  ]

  -- `matchAndParseRegExp`: the name and the expression, if the segment is of that kind.
  unfoldable pub parse_reg : Bytes → Result Panic (Option (Bytes × R))
  unfolding compiled ends_in_paren has_paren cut_last_byte split_paren
  parse_reg path =
      if is_param path && (ends_in_paren path && has_paren path)
      then compiled path (split_paren (cut_last_byte (tail_bytes path)))
      else ok none

module _ {H R : Type 0} where
  abbrev pub create_by :
      Bytes → Node H R → Result Panic (Option (Bytes × R)) → Result Panic (Slot × Node H R)
  create_by path n (err e) = err e
  create_by path n (ok (some (name, expr))) = create_reg path name expr n
  create_by path n (ok none) = if is_param path then create_param path n else create_static path n

module _ {H R : Type 0} (rx : Regexp R) where
  -- `childOrCreate`
  unfoldable pub child_or_create : Bytes → Node H R → Result Panic (Slot × Node H R)
  unfolding parse_reg create_star create_reg create_param create_static
  child_or_create path n =
      if beq path star_path then create_star path n else create_by path n (parse_reg rx path)

  -- `childOf`: the child, and whether it is one of a parameter; `none` for no match.
  abbrev pub or_branch : Bytes → Node H R → Option (Node H R × Bool)
  or_branch path (node i c s p (present n)) =
      if or_false (Option.map (λ r. rx.match_string r path) (info n).reg_expr)
      then some (n, true)
      else none
  or_branch path (node i c s (present n) absent) = some (n, true)
  or_branch path (node i c (present n) absent absent) = some (n, false)
  or_branch path (node i c absent absent absent) = none

  unfoldable pub child_of : Bytes → Node H R → Option (Node H R × Bool)
  unfolding get_child
  child_of path (node i c s p r) = elim (get_child path c) [
    | some n ↦ some (n, false)
    | none ↦ or_branch path (node i c s p r)
  ]
