-- ===== src/Web/Router/Registered.antt =====
-- web/homework2/route.go: a route that was registered is found, and is never overwritten.
use mathlib.Core.List.{reverse, reverse-append, reverse-reverse}
use go_study.Prelude.{
  ℕ, Bool, true, false, Option, none, some, List, [], ◌∷◌, ◌++◌, ◌≡◌, ◌⊎◌, inl, inr, refl, sym, ap,
  ◌∙◌, subst, arith, ◌==◌, if◌then◌else◌, Bytes, beq, beq_iff, beq_refl, lookup, insert,
  lookup-insert, Bool-cases, Option-cases, Result-cases,
}
use go_study.Web.Router.{
  Panic, Info, Node, node, Children, nil, cons, Branch, Slot, is_param, star_path, info, get_child,
  put_child, set_slot, child_or_create, walk, register, register_root, add_to_root, get_root,
  add_route, Trees, check_path, slash, root_path, tail_bytes, split_slash, trim_left, trim_slashes,
  last_is_slash,
}
use go_study.Web.Router.Find.{
  Params, MatchInfo, child_of, match_segs, find_segs, find_route, find_mdls, add_value,
}
use go_study.Web.Router.Shape.{
  IsTree, AreStatic, Place, at_star, at_param, at_static, child_or_create-Place, Place-IsTree,
  AreTrees, get_root-IsTree,
}

module _ {H M : Type 0} where
  get_child-put_child :
      (k : Bytes) (v : Node H M) (c : Children H M) → get_child k (put_child k v c) ≡ some v
  unfolding get_child put_child
  get_child-put_child k v nil = rw (beq_refl k) refl
  get_child-put_child k v (cons j n c) = elim (Bool-cases (beq j k)) [
    | inl e ↦ rw e (rw e refl)
    | inr e ↦ rw e (rw e (get_child-put_child k v c))
  ]

  get_child-star :
      (k : Bytes) (c : Children H M)
      → AreStatic c
      → (beq k star_path ≡ true) ⊎ (is_param k ≡ true)
      → get_child k c ≡ none
  unfolding get_child IsTree
  get_child-star k nil h e = refl
  get_child-star k (cons j n c) (a, b, _, hs) e = elim (Bool-cases (beq j k)) [
    | inl same ↦
        let q = (beq_iff j k).0 same in
        absurd (elim e [ inl x ↦ cc (ap (λ z. beq z star_path) q) | inr y ↦ cc (ap is_param q) ])
    | inr other ↦ rw other (get_child-star k c hs e)
  ]

  -- The child that a segment was registered under is the one that the same segment matches.
  child_of-set_slot :
      (path : Bytes) (i : Info H M) (c : Children H M) (s p : Branch H M) {slot : Slot}
      {child : Node H M} (v : Node H M)
      → Place path c s p slot child
      → IsTree (node i c s p)
      → (is_par : Bool) × (child_of path (set_slot slot v (node i c s p)) ≡ some (v, is_par))
  unfolding child_of set_slot IsTree
  child_of-set_slot path i c s p v (at_star a e f g) (x, cs, bs, bp) =
      (false, rw (e, f) (rw (get_child-star path c cs (inl a)) refl))
  child_of-set_slot path i c s p v (at_param a b e f g _) (x, cs, bs, bp) =
      (true, rw (e, f) (rw (get_child-star path c cs (inr b)) refl))
  child_of-set_slot path i c s p v (at_static a b f g) (x, cs, bs, bp) =
      (false, rw f (rw (get_child-put_child path v c, child_of) refl))

  -- Along the segments of a route that was registered without a panic, matching reaches the node
  -- that was registered.
  match_segs-walk :
      (path : Bytes) (segs : List Bytes) (leaf : Node H M → Node H M × Option Panic)
      (n n' : Node H M) (params : Params)
      → IsTree n
      → walk path segs leaf n ≡ (n', none)
      → (m m' : Node H M) × (params' : Params) × (leaf m ≡ (m', none))
        × (match_segs segs n' params ≡ some (m', params'))
  unfolding walk match_segs
  match_segs-walk path [] leaf n n' params h e = (n, n', params, e, refl)
  match_segs-walk path ([] ∷ segs) leaf n n' params h e = cc
  match_segs-walk path ((b ∷ bs) ∷ segs) leaf (node i c s p) n' params h e =
      elim (Result-cases (child_or_create (b ∷ bs) (node i c s p))) [
        | inl ((slot, child), made) ↦
            let place = child_or_create-Place (b ∷ bs) i c s p made in
            let e1 = rw (made, walk) at e in
            let (is_par, reached) =
              child_of-set_slot (b ∷ bs) i c s p (walk path segs leaf child).0 place h in
            let (m, m', params', l, found) =
              match_segs-walk path segs leaf child (walk path segs leaf child).0
                (if is_par
                  then add_value (tail_bytes (info (walk path segs leaf child).0).path) (b ∷ bs)
                      params
                  else params)
                (Place-IsTree (b ∷ bs) i c s p place h).0
                (ap (λ r. ((walk path segs leaf child).0, r))
                  (ap (λ (t : Node H M × Option Panic). t.1) e1)) in
            (
              m,
              m',
              params',
              l,
              rw (← ap (λ (t : Node H M × Option Panic). t.0) e1) (rw (reached, match_segs) found),
            )
        | inr (q, bad) ↦ cc (rw (bad, walk) at e)
      ]

-- What the checks on a path leave for `strings.Trim` to do: to take off the first slash.
last_split :
    (c : ℕ) (cs : Bytes)
    → last_is_slash (c ∷ cs) ≡ false
    → (front : Bytes) × (l : ℕ) × (c ∷ cs ≡ front ++ (l ∷ [])) × ((l == slash) ≡ false)
unfolding last_is_slash
last_split c [] h = ([], c, refl, h)
last_split c (d ∷ cs) h =
    let (front, l, e, ne) = last_split d cs h in (c ∷ front, l, ap (λ t. c ∷ t) e, ne)

trim_left-reverse :
    (c : ℕ) (cs : Bytes)
    → last_is_slash (c ∷ cs) ≡ false
    → trim_left (reverse (c ∷ cs)) ≡ reverse (c ∷ cs)
unfolding trim_left
trim_left-reverse c cs h =
    let (front, l, e, ne) = last_split c cs h in
    subst (λ t. trim_left (reverse t) ≡ reverse t) (sym e)
      (rw (reverse-append front (l ∷ [])) (rw (ne, trim_left) refl))

check_path_facts :
    (b d : ℕ) (ds : Bytes)
    → check_path (b ∷ d ∷ ds) ≡ none
    → ((b == slash) ≡ true) × (last_is_slash (d ∷ ds) ≡ false)
unfolding check_path beq
check_path_facts b d ds h = ground arith

trim_slashes_of_check :
    (path : Bytes) (c : ℕ) (cs : Bytes)
    → check_path path ≡ none
    → tail_bytes path ≡ c ∷ cs
    → (c == slash) ≡ false
    → trim_slashes path ≡ c ∷ cs
unfolding trim_slashes
trim_slashes_of_check [] c cs h e ne = cc
trim_slashes_of_check (b ∷ []) c cs h e ne = cc
trim_slashes_of_check (b ∷ d ∷ ds) c cs h e ne =
    let (first, last) = check_path_facts b d ds h in
    let plain : (d == slash) ≡ false = ground arith in
    let one : trim_left (b ∷ d ∷ ds) ≡ d ∷ ds =
      rw (first, trim_left) (rw (plain, trim_left) refl) in
    rw one (rw (trim_left-reverse d ds last) (reverse-reverse (d ∷ ds) ∙ e))

module _ {H M : Type 0} where
  -- The first segment of a route that was registered does not begin with a slash.
  walk_first :
      (path bs : Bytes) (leaf : Node H M → Node H M × Option Panic) (n n' : Node H M)
      → walk path (split_slash bs) leaf n ≡ (n', none)
      → (c : ℕ) × (cs : Bytes) × (bs ≡ c ∷ cs) × ((c == slash) ≡ false)
  unfolding walk split_slash
  walk_first path [] leaf n n' h = cc
  walk_first path (c ∷ cs) leaf n n' h = elim (Bool-cases (c == slash)) [
    | inl e ↦ cc (rw (e, split_slash, walk) at h)
    | inr e ↦ (c, cs, refl, e)
  ]

  register_facts :
      (path : Bytes) (handler : Option H) (ms : List M) (n n' : Node H M)
      → register path handler ms n ≡ (n', none)
      → ((info n').handler ≡ handler)
        × ((info n').route ≡ path)
        × ((info n').mdls ≡ (info n).mdls ++ ms)
  unfolding register
  register_facts path handler ms (node i c s p) n' e = elim (Option-cases i.handler) [
    | inl free ↦
        let e' = rw (free, register) at e in
        let q = ap (λ (t : Node H M × Option Panic). info t.0) e' in
        (
          sym (ap (λ (x : Info H M). x.handler) q),
          sym (ap (λ (x : Info H M). x.route) q),
          sym (ap (λ (x : Info H M). x.mdls) q),
        )
    | inr (h, taken) ↦ cc (rw (taken, register) at e)
  ]

  register_root_facts :
      (handler : Option H) (ms : List M) (n n' : Node H M)
      → register_root handler ms n ≡ (n', none)
      → ((info n').handler ≡ handler) × ((info n').mdls ≡ (info n).mdls ++ ms)
  unfolding register_root
  register_root_facts handler ms (node i c s p) n' e = elim (Option-cases i.handler) [
    | inl free ↦
        let e' = rw (free, register_root) at e in
        let q = ap (λ (t : Node H M × Option Panic). info t.0) e' in
        (sym (ap (λ (x : Info H M). x.handler) q), sym (ap (λ (x : Info H M). x.mdls) q))
    | inr (h, taken) ↦ cc (rw (taken, register_root) at e)
  ]

  -- A registered route, found: the match, and what its node holds.
  pub record IsFound (trees : Trees H M) (method path : Bytes) (handler : Option H) : Type 0 where
    pub match : MatchInfo H M
    pub found : find_route trees method path ≡ some match
    pub handler_eq : (info match.n).handler ≡ handler
    pub route_eq : (beq path root_path ≡ true) ⊎ ((info match.n).route ≡ path)

  lookup-insert_self :
      (method : Bytes) (n : Node H M) (trees : Trees H M)
      → lookup method (insert method n trees) ≡ some n
  lookup-insert_self method n trees =
      lookup-insert method method n trees ∙ rw (beq_refl method) refl

  add_to_root-IsFound :
      (path method : Bytes) (handler : Option H) (ms : List M) (root root' : Node H M)
      (trees : Trees H M)
      → IsTree root
      → check_path path ≡ none
      → lookup method trees ≡ some root'
      → add_to_root path handler ms root ≡ (root', none)
      → IsFound trees method path handler
  unfolding add_to_root find_route find_segs
  add_to_root-IsFound path method handler ms root root' trees h ok_path at_method e =
      elim (Bool-cases (beq path root_path)) [
        | inl is_root ↦
            let (a, b) =
              register_root_facts handler ms root root' (rw (is_root, add_to_root) at e) in
            record {
              match = record { n = root'; path_params = none; mdls = (info root').mdls };
              found = rw (at_method, find_route) (rw is_root refl);
              handler_eq = a;
              route_eq = inl is_root;
            }
        | inr not_root ↦
            let walked = rw (not_root, add_to_root) at e in
            let (c, cs, tail_eq, plain) =
              walk_first path (tail_bytes path) (register path handler ms) root root' walked in
            let (m, m', params, leaf_eq, matched) =
              match_segs-walk path (split_slash (tail_bytes path)) (register path handler ms) root
                root' none h walked in
            let (a, b, _) = register_facts path handler ms m m' leaf_eq in
            record {
              match = record {
                n = m';
                path_params = params;
                mdls = find_mdls root' (split_slash (tail_bytes path));
              };
              found =
                  rw (at_method, find_route)
                    (rw not_root (
                      rw (trim_slashes_of_check path c cs ok_path tail_eq plain ∙ sym tail_eq)
                        (rw (matched, find_segs) refl)));
              handler_eq = a;
              route_eq = inr b;
            }
      ]

-- After a registration that does not panic, a request for the very path that was registered reaches
-- the node of that route, whatever else the trees hold, if they are well shaped: the node has the
-- new handler and, but for "/", the path as its route.
pub add_route-IsFound :
    {H M : Type 0} (trees trees' : Trees H M) (method path : Bytes) (handler : Option H)
    (ms : List M)
    → AreTrees trees
    → add_route trees method path handler ms ≡ (trees', none)
    → IsFound trees' method path handler
unfolding add_route
add_route-IsFound {H} {M} trees trees' method path handler ms h e =
    elim (Option-cases (check_path path)) [
      | inl ok_path ↦
          let e' = rw (ok_path, add_route) at e in
          let root' : Node H M = (add_to_root path handler ms (get_root method trees)).0 in
          let stored : insert method root' trees ≡ trees' =
            ap (λ (t : Trees H M × Option Panic). t.0) e' in
          let quiet : (add_to_root path handler ms (get_root method trees)).1 ≡ none =
            ap (λ (t : Trees H M × Option Panic). t.1) e' in
          add_to_root-IsFound path method handler ms (get_root method trees) root' trees'
            (get_root-IsTree method trees h) ok_path
            (rw (← stored) (lookup-insert_self method root' trees))
            (ap (λ (r : Option Panic). (root', r)) quiet)
      | inr (p, bad) ↦ cc (rw (bad, add_route) at e)
    ]
