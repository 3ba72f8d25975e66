-- ===== src/Web/RegexRouter/Again.antt =====
-- web/homework1/route.go: a route that is registered twice.
use go_study.Prelude.{
  Option, none, some, List, [], ◌∷◌, ◌≡◌, inl, inr, refl, ap, subst, Result, ok, err, Bytes, beq,
  beq_refl, insert, Bool-cases,
}
use go_study.Web.Router.{is_param, star_path}
use go_study.Web.RegexRouter.{
  Regexp, Panic, Node, node, Children, nil, cons, absent, present, Slot, star, param, reg, static,
  info, get_child, put_child, set_slot, create_star, create_reg, create_param, create_static,
  star_refusal, reg_refusal, param_refusal,
}
use go_study.Web.RegexRouter.Nodes.{child_or_create, create_by, parse_reg}
use go_study.Web.RegexRouter.Shape.{pair_of}

pub insert-insert :
    {V : Type 0} (key : Bytes) (v w : V) (m : List (Bytes × V))
    → insert key w (insert key v m) ≡ insert key w m
unfolding insert
insert-insert key v w [] = rw (beq_refl key) refl
insert-insert key v w ((k, u) ∷ m) = elim (Bool-cases (beq k key)) [
  | inl e ↦ rw e (rw e refl)
  | inr e ↦ rw e (rw e (ap (λ l. (k, u) ∷ l) (insert-insert key v w m)))
]

module _ {H R : Type 0} where
  put_child-put_child :
      (k : Bytes) (v w : Node H R) (c : Children H R)
      → put_child k w (put_child k v c) ≡ put_child k w c
  unfolding put_child
  put_child-put_child k v w nil = rw (beq_refl k) refl
  put_child-put_child k v w (cons j n c) = elim (Bool-cases (beq j k)) [
    | inl e ↦ rw e (rw e refl)
    | inr e ↦ rw e (rw e (ap (cons j n) (put_child-put_child k v w c)))
  ]

  get_child-put_child :
      (k : Bytes) (v : Node H R) (c : Children H R) → get_child k (put_child k v c) ≡ some v
  unfolding get_child put_child
  get_child-put_child k v nil = rw (beq_refl k) refl
  get_child-put_child k v (cons j n c) = elim (Bool-cases (beq j k)) [
    | inl e ↦ rw e (rw e refl)
    | inr e ↦ rw e (rw e (get_child-put_child k v c))
  ]

  pub set_slot-set_slot :
      (slot : Slot) (v w n : Node H R) → set_slot slot w (set_slot slot v n) ≡ set_slot slot w n
  unfolding set_slot
  set_slot-set_slot star v w (node i c s p r) = refl
  set_slot-set_slot param v w (node i c s p r) = refl
  set_slot-set_slot reg v w (node i c s p r) = refl
  set_slot-set_slot (static k) v w (node i c s p r) =
      ap (λ c'. node i c' s p r) (put_child-put_child k v w c)

  -- A child that was found or made is found again, also when it has changed, if it keeps its path.
  abbrev pub IsFoundAgain :
      (Node H R → Result Panic (Slot × Node H R)) → Node H R → Slot × Node H R → Type 0
  IsFoundAgain create n (slot, child) =
      (v : Node H R) → (info v).path ≡ (info child).path → create (set_slot slot v n) ≡ ok (slot, v)

  create_star-IsFoundAgain :
      (path : Bytes) (n : Node H R) (made : Slot × Node H R)
      → create_star path n ≡ ok made
      → IsFoundAgain (create_star path) n made
  unfolding create_star star_refusal set_slot
  create_star-IsFoundAgain path (node i c s (present p) r) made e = cc
  create_star-IsFoundAgain path (node i c s absent (present r)) made e = cc
  create_star-IsFoundAgain path (node i c s absent absent) (slot, child) e =
      subst (IsFoundAgain (create_star path) (node i c s absent absent)) (pair_of e) λ v h. refl

  create_static-IsFoundAgain :
      (path : Bytes) (n : Node H R) (made : Slot × Node H R)
      → create_static path n ≡ ok made
      → IsFoundAgain (create_static path) n made
  unfolding create_static set_slot
  create_static-IsFoundAgain path (node i c s p r) (slot, child) e =
      subst (IsFoundAgain (create_static path) (node i c s p r)) (pair_of e)
        λ v h. rw (get_child-put_child path v c) refl

  create_reg-IsFoundAgain :
      (path name : Bytes) (expr : R) (n : Node H R) (made : Slot × Node H R)
      → create_reg path name expr n ≡ ok made
      → IsFoundAgain (create_reg path name expr) n made
  unfolding create_reg reg_refusal set_slot
  create_reg-IsFoundAgain path name expr (node i c (present s) p r) made e = cc
  create_reg-IsFoundAgain path name expr (node i c absent (present p) r) made e = cc
  create_reg-IsFoundAgain path name expr (node i c absent absent absent) (slot, child) e =
      subst (IsFoundAgain (create_reg path name expr) (node i c absent absent absent)) (pair_of e)
        λ v h. rw (h, create_reg) (rw (beq_refl path) refl)
  create_reg-IsFoundAgain path name expr (node i c absent absent (present r)) (slot, child) e =
      elim (Bool-cases (beq (info r).path path)) [
        | inl same ↦
            subst (IsFoundAgain (create_reg path name expr) (node i c absent absent (present r)))
              (pair_of (rw (same, create_reg) at e)) λ v h. rw (h, create_reg) (rw same refl)
        | inr other ↦ cc (rw (other, create_reg) at e)
      ]

  create_param-IsFoundAgain :
      (path : Bytes) (n : Node H R) (made : Slot × Node H R)
      → create_param path n ≡ ok made
      → IsFoundAgain (create_param path) n made
  unfolding create_param param_refusal set_slot
  create_param-IsFoundAgain path (node i c (present s) p r) made e = cc
  create_param-IsFoundAgain path (node i c absent p (present r)) made e = cc
  create_param-IsFoundAgain path (node i c absent absent absent) (slot, child) e =
      subst (IsFoundAgain (create_param path) (node i c absent absent absent)) (pair_of e)
        λ v h. rw (h, create_param) (rw (beq_refl path) refl)
  create_param-IsFoundAgain path (node i c absent (present p) absent) (slot, child) e =
      elim (Bool-cases (beq (info p).path path)) [
        | inl same ↦
            subst (IsFoundAgain (create_param path) (node i c absent (present p) absent))
              (pair_of (rw (same, create_param) at e)) λ v h. rw (h, create_param) (rw same refl)
        | inr other ↦ cc (rw (other, create_param) at e)
      ]

  create_by-IsFoundAgain :
      (path : Bytes) (o : Result Panic (Option (Bytes × R))) (n : Node H R) (made : Slot × Node H R)
      → create_by path n o ≡ ok made
      → IsFoundAgain (λ m. create_by path m o) n made
  create_by-IsFoundAgain path (err x) n made e = cc
  create_by-IsFoundAgain path (ok (some (name, expr))) n made e =
      create_reg-IsFoundAgain path name expr n made e
  create_by-IsFoundAgain path (ok none) n (slot, child) e = elim (Bool-cases (is_param path)) [
    | inl colon ↦
        λ v h. rw colon (create_param-IsFoundAgain path n (slot, child) (rw colon at e) v h)
    | inr plain ↦
        λ v h. rw plain (create_static-IsFoundAgain path n (slot, child) (rw plain at e) v h)
  ]

module _ {H R : Type 0} (rx : Regexp R) where
  pub child_or_create-IsFoundAgain :
      (path : Bytes) (n : Node H R) (made : Slot × Node H R)
      → child_or_create rx path n ≡ ok made
      → IsFoundAgain (child_or_create rx path) n made
  unfolding child_or_create
  child_or_create-IsFoundAgain path n (slot, child) e = elim (Bool-cases (beq path star_path)) [
    | inl a ↦ λ v h.
        rw (a, child_or_create)
          (create_star-IsFoundAgain path n (slot, child) (rw (a, child_or_create) at e) v h)
    | inr a ↦ λ v h.
        rw (a, child_or_create)
          (create_by-IsFoundAgain path (parse_reg rx path) n (slot, child)
            (rw (a, child_or_create) at e) v h)
  ]
