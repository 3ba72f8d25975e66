-- ===== src/Web/Router/Shape.antt =====
-- The shape of the routing trees of web/homework2/route.go, and what registering keeps of it.
use go_study.Prelude.{
  true, false, Option, some, List, [], ◌∷◌, ◌≡◌, inl, inr, refl, subst, arith, Result, ok, Bytes,
  beq, beq_refl, lookup, insert, Bool-cases, Option-cases, Result-cases, All,
}
use go_study.Web.Router.{
  Panic, Info, Node, node, Children, nil, cons, Branch, absent, present, Slot, star, param, static,
  is_param, star_path, info, new_node, get_child, put_child, set_slot, or_static, create_star,
  create_param, child_or_create, walk, register, register_root, add_to_root, get_root, add_route,
  Trees, check_path, root_path, tail_bytes, split_slash,
}

module _ {H M : Type 0} where
  -- A starChild and a paramChild are never both there.
  abbrev pub AreExclusive : Branch H M → Branch H M → Type 0
  AreExclusive (present s) (present p) = ⊥
  AreExclusive _ _ = Unit

-- No static child hides a wildcard or a parameter, at any depth.
unfoldable mutual
  pub IsTree : {H M : Type 0} → Node H M → Type 0
  IsTree (node i c s p) = AreExclusive s p × AreStatic c × IsBranch s × IsBranch p

  pub AreStatic : {H M : Type 0} → Children H M → Type 0
  AreStatic nil = Unit
  AreStatic (cons k n c) = (beq k star_path ≡ false) × (is_param k ≡ false) × IsTree n × AreStatic c

  pub IsBranch : {H M : Type 0} → Branch H M → Type 0
  IsBranch absent = Unit
  IsBranch (present n) = IsTree n

module _ {H M : Type 0} where
  get_child-IsTree :
      (k : Bytes) (c : Children H M) (n : Node H M)
      → AreStatic c
      → get_child k c ≡ some n
      → IsTree n
  unfolding IsTree get_child
  get_child-IsTree k nil n h e = cc
  get_child-IsTree k (cons j m c) n (_, _, h, hs) e = elim (Bool-cases (beq j k)) [
    | inl same ↦ subst IsTree (ground arith) h
    | inr other ↦ get_child-IsTree k c n hs (ground arith)
  ]

  put_child-AreStatic :
      (k : Bytes) (v : Node H M) (c : Children H M)
      → beq k star_path ≡ false
      → is_param k ≡ false
      → IsTree v
      → AreStatic c
      → AreStatic (put_child k v c)
  unfolding IsTree put_child
  put_child-AreStatic k v nil a b h _ = (a, b, h, tt)
  put_child-AreStatic k v (cons j m c) a b h (a', b', h', hs) = elim (Bool-cases (beq j k)) [
    | inl same ↦ rw same (a', b', h, hs)
    | inr other ↦ rw other (a', b', h', put_child-AreStatic k v c a b h hs)
  ]

  abbrev pub or_new : Bytes → Branch H M → Node H M
  or_new path absent = new_node path
  or_new path (present n) = n

  -- Where `childOrCreate` finds or makes the child, by the three kinds of segment.
  pub data Place (path : Bytes) (c : Children H M) (s p : Branch H M) (slot : Slot)
      (child : Node H M) : Type 0 where
    at_star :
        beq path star_path ≡ true
        → p ≡ absent
        → slot ≡ star
        → child ≡ or_new path s
        → Place path c s p slot child
    at_param :
        beq path star_path ≡ false
        → is_param path ≡ true
        → s ≡ absent
        → slot ≡ param
        → child ≡ or_new path p
        → beq (info child).path path ≡ true
        → Place path c s p slot child
    at_static :
        beq path star_path ≡ false
        → is_param path ≡ false
        → slot ≡ static path
        → child ≡ or_static path (get_child path c)
        → Place path c s p slot child

  star-Place :
      (path : Bytes) (c : Children H M) (s p : Branch H M) {slot : Slot} {child : Node H M}
      → beq path star_path ≡ true
      → create_star path s p ≡ ok (slot, child)
      → Place path c s p slot child
  unfolding create_star
  star-Place path c s (present p) h e = cc
  star-Place path c absent absent h e = at_star h refl (cc) (cc)
  star-Place path c (present s) absent h e = at_star h refl (cc) (cc)

  second :
      {slot slot' : Slot} {n n' : Node H M}
      → ◌≡◌ {A = Result Panic (Slot × Node H M)} (ok (slot, n)) (ok (slot', n'))
      → n ≡ n'
  second e = cc

  param-Place :
      (path : Bytes) (c : Children H M) (s p : Branch H M) {slot : Slot} {child : Node H M}
      → beq path star_path ≡ false
      → is_param path ≡ true
      → create_param path s p ≡ ok (slot, child)
      → Place path c s p slot child
  unfolding create_param
  param-Place path c (present s) p h k e = cc
  param-Place path c absent absent h k e =
      at_param h k refl (cc) (cc)
        (subst (λ x. beq (info x).path path ≡ true) (second e) (beq_refl path))
  param-Place path c absent (present n) h k e = elim (Bool-cases (beq (info n).path path)) [
    | inl same ↦
        let e' = rw same at e in
        at_param h k refl (cc e') (cc e')
          (subst (λ x. beq (info x).path path ≡ true) (second e') same)
    | inr other ↦ cc (rw other at e)
  ]

  pub child_or_create-Place :
      (path : Bytes) (i : Info H M) (c : Children H M) (s p : Branch H M) {slot : Slot}
      {child : Node H M}
      → child_or_create path (node i c s p) ≡ ok (slot, child)
      → Place path c s p slot child
  unfolding child_or_create
  child_or_create-Place path i c s p e = elim (Bool-cases (beq path star_path)) [
    | inl a ↦ star-Place path c s p a (rw a at e)
    | inr a ↦ elim (Bool-cases (is_param path)) [
      | inl b ↦ param-Place path c s p a b (rw (a, b) at e)
      | inr b ↦ let e' = rw (a, b) at e in at_static a b (cc e') (cc e')
    ]
  ]

  or_new-IsTree : (path : Bytes) (b : Branch H M) → IsBranch b → IsTree (or_new path b)
  unfolding IsTree
  or_new-IsTree path absent h = (tt, tt, tt, tt)
  or_new-IsTree path (present n) h = h

  or_static-IsTree :
      (path : Bytes) (c : Children H M) → AreStatic c → IsTree (or_static path (get_child path c))
  unfolding IsTree or_static
  or_static-IsTree path c h = elim (Option-cases (get_child path c)) [
    | inl e ↦ rw e (tt, tt, tt, tt)
    | inr (n, e) ↦ rw e (get_child-IsTree path c n h e)
  ]

  -- The child is a tree, and a tree may take its place.
  pub Place-IsTree :
      (path : Bytes) (i : Info H M) (c : Children H M) (s p : Branch H M) {slot : Slot}
      {child : Node H M}
      → Place path c s p slot child
      → IsTree (node i c s p)
      → IsTree child × ((v : Node H M) → IsTree v → IsTree (set_slot slot v (node i c s p)))
  unfolding IsTree set_slot
  Place-IsTree path i c s p (at_star a e f g) (x, cs, bs, bp) =
      (rw g (or_new-IsTree path s bs), λ v h. rw (e, f) (tt, cs, h, tt))
  Place-IsTree path i c s p (at_param a b e f g _) (x, cs, bs, bp) =
      (rw g (or_new-IsTree path p bp), λ v h. rw (e, f) (tt, cs, tt, h))
  Place-IsTree path i c s p (at_static a b f g) (x, cs, bs, bp) = (
    rw g (or_static-IsTree path c cs),
    λ v h. rw f (x, put_child-AreStatic path v c a b h cs, bs, bp),
  )

  walk-IsTree :
      (path : Bytes) (segs : List Bytes) (leaf : Node H M → Node H M × Option Panic) (n : Node H M)
      → ((m : Node H M) → IsTree m → IsTree (leaf m).0)
      → IsTree n
      → IsTree (walk path segs leaf n).0
  unfolding walk
  walk-IsTree path [] leaf n keep h = keep n h
  walk-IsTree path ([] ∷ segs) leaf n keep h = h
  walk-IsTree path ((b ∷ bs) ∷ segs) leaf (node i c s p) keep h =
      elim (Result-cases (child_or_create (b ∷ bs) (node i c s p))) [
        | inl ((slot, child), e) ↦
            let (ct, put) =
              Place-IsTree (b ∷ bs) i c s p (child_or_create-Place (b ∷ bs) i c s p e) h in
            rw (e, walk) (put _ (walk-IsTree path segs leaf child keep ct))
        | inr (q, e) ↦ rw (e, walk) h
      ]

  register-IsTree :
      (path : Bytes) (handler : Option H) (ms : List M) (n : Node H M)
      → IsTree n
      → IsTree (register path handler ms n).0 × IsTree (register_root handler ms n).0
  unfolding register register_root IsTree
  register-IsTree path handler ms (node i c s p) h = elim (Option-cases i.handler) [
    | inl e ↦ rw e (h, h)
    | inr (_, e) ↦ rw e (h, h)
  ]

  abbrev pub AreTrees : Trees H M → Type 0
  AreTrees = All (λ e. IsTree e.1)

  pub lookup-IsTree :
      (method : Bytes) (trees : Trees H M) (n : Node H M)
      → AreTrees trees
      → lookup method trees ≡ some n
      → IsTree n
  unfolding lookup
  lookup-IsTree method [] n h e = cc
  lookup-IsTree method ((k, m) ∷ trees) n (h, hs) e = elim (Bool-cases (beq k method)) [
    | inl same ↦ subst IsTree (ground arith) h
    | inr other ↦ lookup-IsTree method trees n hs (ground arith)
  ]

  insert-AreTrees :
      (method : Bytes) (n : Node H M) (trees : Trees H M)
      → IsTree n
      → AreTrees trees
      → AreTrees (insert method n trees)
  unfolding insert
  insert-AreTrees method n [] h _ = (h, tt)
  insert-AreTrees method n ((k, m) ∷ trees) h (h', hs) = elim (Bool-cases (beq k method)) [
    | inl same ↦ rw same (h, hs)
    | inr other ↦ rw other (h', insert-AreTrees method n trees h hs)
  ]

  pub get_root-IsTree :
      (method : Bytes) (trees : Trees H M) → AreTrees trees → IsTree (get_root method trees)
  unfolding get_root
  get_root-IsTree method trees h = elim (Option-cases (lookup method trees)) [
    | inl e ↦ rw (e, get_root) (unfold IsTree in (tt, tt, tt, tt))
    | inr (n, e) ↦ rw (e, get_root) (lookup-IsTree method trees n h e)
  ]

  add_to_root-IsTree :
      (path : Bytes) (handler : Option H) (ms : List M) (root : Node H M)
      → IsTree root
      → IsTree (add_to_root path handler ms root).0
  unfolding add_to_root
  add_to_root-IsTree path handler ms root h = elim (Bool-cases (beq path root_path)) [
    | inl e ↦ rw e (register-IsTree path handler ms root h).1
    | inr e ↦ rw e (
        walk-IsTree path (split_slash (tail_bytes path)) (register path handler ms) root
          (λ m k. (register-IsTree path handler ms m k).0) h)
  ]

-- Registering keeps well-shaped trees so, also when it ends in a panic half way: no node has a
-- starChild and a paramChild, and no static child is called "*" or begins with a colon.
pub add_route-AreTrees :
    {H M : Type 0} (trees : Trees H M) (method path : Bytes) (handler : Option H) (ms : List M)
    → AreTrees trees
    → AreTrees (add_route trees method path handler ms).0
unfolding add_route
add_route-AreTrees trees method path handler ms h = elim (Option-cases (check_path path)) [
  | inl e ↦
      rw (e, add_route)
        (insert-AreTrees method (add_to_root path handler ms (get_root method trees)).0 trees
          (add_to_root-IsTree path handler ms (get_root method trees)
            (get_root-IsTree method trees h))
          h)
  | inr (p, e) ↦ rw (e, add_route) h
]
