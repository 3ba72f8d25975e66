-- ===== src/Web/Router.antt =====
-- web/homework2/route.go: the routing trees, one to an HTTP method.
-- `H` stands for HandleFunc and `M` for Middleware; a nil handler is `none`, a nil slice or map is
-- empty. No two parents share a node, so a tree is a value, and `add_route` returns the trees that
-- the Go code leaves behind, with the panic that it ends in, if any.
pub mod Find
pub mod Shape
pub mod Registered
mod Tests
use mathlib.Core.List.{reverse}
use go_study.Prelude.{
  ℕ, zero, suc, Bool, true, false, Option, none, some, List, [], ◌∷◌, ◌++◌, ◌==◌, if◌then◌else◌,
  Result, ok, err, Bytes, beq, lookup, insert,
}

abbrev pub slash : ℕ
slash = 47

abbrev pub colon : ℕ
colon = 58

abbrev pub star_path : Bytes
star_path = 42 ∷ []

abbrev pub root_path : Bytes
root_path = slash ∷ []

pub data Panic : Type 0 where
  empty_path no_leading_slash trailing_slash root_conflict : Panic
  empty_segment : Bytes → Panic
  conflict : Bytes → Panic
  star_after_param : Bytes → Panic
  param_after_star : Bytes → Panic
  param_conflict : (old new : Bytes) → Panic

-- What a node holds beside its children.
pub record Info (H M : Type 0) : Type 0 where
  pub path : Bytes
  pub handler : Option H
  pub mdls : List M
  pub route : Bytes

mutual
  -- The static children, the starChild and the paramChild.
  pub data Node (H M : Type 0) : Type 0 where
    node : Info H M → Children H M → Branch H M → Branch H M → Node H M

  pub data Children (H M : Type 0) : Type 0 where
    nil : Children H M
    cons : Bytes → Node H M → Children H M → Children H M

  pub data Branch (H M : Type 0) : Type 0 where
    absent : Branch H M
    present : Node H M → Branch H M

-- `path[0] == ':'`
abbrev pub is_param : Bytes → Bool
is_param [] = false
is_param (b ∷ bs) = b == colon

-- The place of a child: a static one has its key in the map.
pub data Slot : Type 0 where
  star param : Slot
  static : Bytes → Slot

module _ {H M : Type 0} where
  abbrev pub info : Node H M → Info H M
  info (node i c s p) = i

  abbrev pub children : Node H M → Children H M
  children (node i c s p) = c

  abbrev pub star_child : Node H M → Branch H M
  star_child (node i c s p) = s

  abbrev pub param_child : Node H M → Branch H M
  param_child (node i c s p) = p

  abbrev pub to_option : Branch H M → Option (Node H M)
  to_option absent = none
  to_option (present n) = some n

  -- `&node{path: path}`
  abbrev pub new_node : Bytes → Node H M
  new_node path =
      node (record { path = path; handler = none; mdls = []; route = [] }) nil absent absent

  -- `n.children[path]`
  unfoldable pub get_child : Bytes → Children H M → Option (Node H M)
  get_child k nil = none
  get_child k (cons j n c) = if beq j k then some n else get_child k c

  -- `n.children[path] = child`
  unfoldable pub put_child : Bytes → Node H M → Children H M → Children H M
  put_child k v nil = cons k v nil
  put_child k v (cons j n c) = if beq j k then cons j v c else cons j n (put_child k v c)

  unfoldable pub set_slot : Slot → Node H M → Node H M → Node H M
  unfolding put_child
  set_slot star v (node i c s p) = node i c (present v) p
  set_slot param v (node i c s p) = node i c s (present v)
  set_slot (static k) v (node i c s p) = node i (put_child k v c) s p

  pub or_static : Bytes → Option (Node H M) → Node H M
  or_static path none = new_node path
  or_static path (some n) = n

  create_star : Bytes → Branch H M → Branch H M → Result Panic (Slot × Node H M)
  create_star path s (present p) = err (star_after_param path)
  create_star path absent absent = ok (star, new_node path)
  create_star path (present n) absent = ok (star, n)

  create_param : Bytes → Branch H M → Branch H M → Result Panic (Slot × Node H M)
  create_param path (present s) p = err (param_after_star path)
  create_param path absent absent = ok (param, new_node path)
  create_param path absent (present n) =
      if beq (info n).path path then ok (param, n) else err (param_conflict (info n).path path)

  -- `childOrCreate`: the child and its place; the caller puts the child there.
  pub child_or_create : Bytes → Node H M → Result Panic (Slot × Node H M)
  unfolding create_star create_param or_static get_child
  child_or_create path n =
      if beq path star_path
      then create_star path (star_child n) (param_child n)
      else if is_param path
      then create_param path (star_child n) (param_child n)
      else ok (static path, or_static path (get_child path (children n)))

  -- The loop of `addRoute` over the segments, and what it does to the node that they lead to.
  -- A panic leaves the nodes that were created before it.
  pub walk :
      Bytes → List Bytes → (Node H M → Node H M × Option Panic) → Node H M → Node H M × Option Panic
  unfolding child_or_create set_slot
  walk path [] leaf n = leaf n
  walk path ([] ∷ segs) leaf n = (n, some (empty_segment path))
  walk path ((b ∷ bs) ∷ segs) leaf n = elim (child_or_create (b ∷ bs) n) [
    | err p ↦ (n, some p)
    | ok (slot, child) ↦ let (child', r) = walk path segs leaf child in (set_slot slot child' n, r)
  ]

  -- The end of `addRoute`: a handler is set once, and middlewares are appended.
  pub register : Bytes → Option H → List M → Node H M → Node H M × Option Panic
  register path handler ms (node i c s p) = elim i.handler [
    | some _ ↦ (node i c s p, some (conflict path))
    | none ↦ (node (record i { handler = handler; route = path; mdls = i.mdls ++ ms }) c s p, none)
  ]

  pub register_root : Option H → List M → Node H M → Node H M × Option Panic
  register_root handler ms (node i c s p) = elim i.handler [
    | some _ ↦ (node i c s p, some root_conflict)
    | none ↦ (node (record i { handler = handler; mdls = i.mdls ++ ms }) c s p, none)
  ]

-- `strings.Split(s, "/")`
cons_head : ℕ → List Bytes → List Bytes
cons_head b [] = (b ∷ []) ∷ []
cons_head b (part ∷ parts) = (b ∷ part) ∷ parts

unfoldable pub split_slash : Bytes → List Bytes
unfolding cons_head
split_slash [] = [] ∷ []
split_slash (b ∷ bs) =
    let rest = split_slash bs in if b == slash then [] ∷ rest else cons_head b rest

trim_left : Bytes → Bytes
trim_left [] = []
trim_left (b ∷ bs) = if b == slash then trim_left bs else b ∷ bs

-- `strings.Trim(path, "/")`
unfoldable pub trim_slashes : Bytes → Bytes
unfolding trim_left
trim_slashes path = reverse (trim_left (reverse (trim_left path)))

unfoldable pub last_is_slash : Bytes → Bool
last_is_slash [] = false
last_is_slash (b ∷ []) = b == slash
last_is_slash (b ∷ c ∷ bs) = last_is_slash (c ∷ bs)

-- The guards at the start of `addRoute`.
pub check_path : Bytes → Option Panic
unfolding last_is_slash
check_path [] = some empty_path
check_path (b ∷ bs) =
    if b == slash
    then (if beq (b ∷ bs) root_path
        then none
        else if last_is_slash (b ∷ bs)
        then some trailing_slash
        else none)
    else some no_leading_slash

abbrev pub tail_bytes : Bytes → Bytes
tail_bytes [] = []
tail_bytes (b ∷ bs) = bs

abbrev pub Trees : Type 0 → Type 0 → Type 0
Trees H M = List (Bytes × Node H M)

module _ {H M : Type 0} where
  pub add_to_root : Bytes → Option H → List M → Node H M → Node H M × Option Panic
  unfolding register register_root walk split_slash
  add_to_root path handler ms root =
      if beq path root_path
      then register_root handler ms root
      else walk path (split_slash (tail_bytes path)) (register path handler ms) root

  pub get_root : Bytes → Trees H M → Node H M
  get_root method trees = elim (lookup method trees) [ none ↦ new_node root_path | some n ↦ n ]

  -- `addRoute`: the trees afterwards, and the panic.
  unfoldable pub add_route :
      Trees H M → (method path : Bytes) → Option H → List M → Trees H M × Option Panic
  unfolding check_path add_to_root get_root
  add_route trees method path handler ms = elim (check_path path) [
    | some p ↦ (trees, some p)
    | none ↦
        let (root, r) = add_to_root path handler ms (get_root method trees) in
        (insert method root trees, r)
  ]
