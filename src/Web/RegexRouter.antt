-- ===== src/Web/RegexRouter.antt =====
-- web/homework1/route.go: the router with wildcards, parameters and regular expressions.
-- Package regexp is a parameter, with `R` for its compiled expressions; `H` stands for HandleFunc.
-- No two parents share a node, so a tree is a value. The map of the static children is nil until
-- there is one. The paths are cut into segments as in Web.Router.
pub mod Nodes
pub mod Routes
pub mod Shape
pub mod Invariant
pub mod Pattern
pub mod Placed
pub mod Single
pub mod Again
pub mod Named
pub mod Reached
pub mod Twice
mod Tests
use mathlib.Core.Option
use go_study.Prelude.{
  ℕ, zero, suc, Bool, true, false, Option, none, some, List, [], ◌∷◌, ◌==◌, ◌&&◌, if◌then◌else◌,
  Result, ok, err, Bytes, beq, lookup, insert,
}
use go_study.Web.Router.{
  slash, star_path, root_path, is_param, split_slash, trim_slashes, last_is_slash, tail_bytes,
}
use go_study.Web.Router.Find.{Params, add_value}

-- `regexp.MustCompile`, with `none` for its panic, and `MatchString`.
pub record Regexp (R : Type 0) : Type 0 where
  pub must_compile : Bytes → Option R
  pub match_string : R → Bytes → Bool

pub data Panic : Type 0 where
  empty_path no_leading_slash trailing_slash root_conflict : Panic
  empty_segment conflict bad_regexp : Bytes → Panic
  star_after_param star_after_reg reg_after_star reg_after_param : Bytes → Panic
  param_after_star param_after_reg : Bytes → Panic
  reg_conflict param_conflict : (old new : Bytes) → Panic

-- `nodeType`
pub data NodeType : Type 0 where
  static_node reg_node param_node any_node : NodeType

abbrev pub is_any : NodeType → Bool
is_any any_node = true
is_any static_node = false
is_any reg_node = false
is_any param_node = false

-- What a node holds beside its children.
pub record Info (H R : Type 0) : Type 0 where
  pub typ : NodeType
  pub path : Bytes
  pub handler : Option H
  pub param_name : Bytes
  pub reg_expr : Option R

mutual
  -- The static children, the starChild, the paramChild and the regChild.
  pub data Node (H R : Type 0) : Type 0 where
    node : Info H R → Children H R → Branch H R → Branch H R → Branch H R → Node H R

  pub data Children (H R : Type 0) : Type 0 where
    nil : Children H R
    cons : Bytes → Node H R → Children H R → Children H R

  pub data Branch (H R : Type 0) : Type 0 where
    absent : Branch H R
    present : Node H R → Branch H R

-- The place of a child: a static one has its key in the map.
pub data Slot : Type 0 where
  star param reg : Slot
  static : Bytes → Slot

module _ {H R : Type 0} where
  abbrev pub info : Node H R → Info H R
  info (node i c s p r) = i

  -- A node with no children.
  abbrev pub leaf_node : Info H R → Node H R
  leaf_node i = node i nil absent absent absent

  abbrev pub new_info : NodeType → Bytes → Bytes → Option R → Info H R
  new_info typ path param_name reg_expr = record {
    typ = typ;
    path = path;
    handler = none;
    param_name = param_name;
    reg_expr = reg_expr;
  }

  -- `n.children[path]`
  unfoldable pub get_child : Bytes → Children H R → Option (Node H R)
  get_child k nil = none
  get_child k (cons j n c) = if beq j k then some n else get_child k c

  -- `n.children[path] = child`
  unfoldable pub put_child : Bytes → Node H R → Children H R → Children H R
  put_child k v nil = cons k v nil
  put_child k v (cons j n c) = if beq j k then cons j v c else cons j n (put_child k v c)

  unfoldable pub set_slot : Slot → Node H R → Node H R → Node H R
  unfolding put_child
  set_slot star v (node i c s p r) = node i c (present v) p r
  set_slot param v (node i c s p r) = node i c s (present v) r
  set_slot reg v (node i c s p r) = node i c s p (present v)
  set_slot (static k) v (node i c s p r) = node i (put_child k v c) s p r

  abbrev pub or_create : NodeType → Bytes → Bytes → Option R → Branch H R → Node H R
  or_create typ path name expr absent = leaf_node (new_info typ path name expr)
  or_create typ path name expr (present n) = n

  -- The paths differ: a conflict.
  abbrev pub differs : Bytes → Branch H R → Bool
  differs path absent = false
  differs path (present n) = if beq (info n).path path then false else true

  abbrev pub path_of : Branch H R → Bytes
  path_of absent = []
  path_of (present n) = (info n).path

  abbrev pub is_present : Branch H R → Bool
  is_present absent = false
  is_present (present n) = true

  -- `isStarChildAvailable`, `isRegexChildAvailable`, `isParamChildAvailable`
  unfoldable pub star_refusal : Bytes → Node H R → Option Panic
  star_refusal path (node i c s p r) =
      if is_present p
      then some (star_after_param path)
      else if is_present r
      then some (star_after_reg path)
      else none

  unfoldable pub reg_refusal : Bytes → Node H R → Option Panic
  reg_refusal path (node i c s p r) =
      if is_present s
      then some (reg_after_star path)
      else if is_present p
      then some (reg_after_param path)
      else if differs path r
      then some (reg_conflict (path_of r) path)
      else none

  unfoldable pub param_refusal : Bytes → Node H R → Option Panic
  param_refusal path (node i c s p r) =
      if is_present s
      then some (param_after_star path)
      else if is_present r
      then some (param_after_reg path)
      else if differs path p
      then some (param_conflict (path_of p) path)
      else none

  -- `starChildOrCreate`, `regexChildOrCreate`, `paramChildOrCreate` and `staticChildOrCreate`: the
  -- child and its place; the caller puts the child there.
  unfoldable pub create_star : Bytes → Node H R → Result Panic (Slot × Node H R)
  unfolding star_refusal
  create_star path (node i c s p r) = elim (star_refusal path (node i c s p r)) [
    | some e ↦ err e
    | none ↦ ok (star, or_create any_node path [] none s)
  ]

  unfoldable pub create_reg : Bytes → Bytes → R → Node H R → Result Panic (Slot × Node H R)
  unfolding reg_refusal
  create_reg path name expr (node i c s p r) = elim (reg_refusal path (node i c s p r)) [
    | some e ↦ err e
    | none ↦ ok (reg, or_create reg_node path name (some expr) r)
  ]

  unfoldable pub create_param : Bytes → Node H R → Result Panic (Slot × Node H R)
  unfolding param_refusal
  create_param path (node i c s p r) = elim (param_refusal path (node i c s p r)) [
    | some e ↦ err e
    | none ↦ ok (param, or_create param_node path (tail_bytes path) none p)
  ]

  abbrev pub or_static : Bytes → Option (Node H R) → Node H R
  or_static path none = leaf_node (new_info static_node path [] none)
  or_static path (some n) = n

  unfoldable pub create_static : Bytes → Node H R → Result Panic (Slot × Node H R)
  unfolding get_child
  create_static path (node i c s p r) = ok (static path, or_static path (get_child path c))
