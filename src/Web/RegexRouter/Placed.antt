-- ===== src/Web/RegexRouter/Placed.antt =====
-- web/homework1/route.go: the first child of a node, and the segments that it matches.
use mathlib.Core.Option
use go_study.Prelude.{
  Bool, true, false, Option, none, some, List, ◌∷◌, ◌≡◌, inl, inr, refl, sym, subst, Result, ok,
  err, Bytes, beq, Bool-cases, Option-cases, if◌then◌else◌,
}
use go_study.Web.Router.{is_param, star_path}
use go_study.Web.Router.Find.{Params, add_value}
use go_study.Web.RegexRouter.{
  Regexp, Panic, is_any, Info, Node, node, Slot, star, param, reg, static, info, leaf_node,
  set_slot, create_star, create_reg, create_param, create_static, star_refusal, reg_refusal,
  param_refusal,
}
use go_study.Web.RegexRouter.Nodes.{child_or_create, child_of, parse_reg, create_by}
use go_study.Web.RegexRouter.Routes.{match_segs}
use go_study.Web.RegexRouter.Shape.{pair_of}
use go_study.Web.RegexRouter.Pattern.{allows}

module _ {H R : Type 0} where
  abbrev pub stepped : Bytes → Params → Option (Node H R × Bool) → Option (Node H R × Params)
  stepped r ps none = none
  stepped r ps (some (c, bound)) =
      some (c, (if bound then add_value (info c).param_name r ps else ps))

  pub info-set_slot : (slot : Slot) (v n : Node H R) → info (set_slot slot v n) ≡ info n
  unfolding set_slot
  info-set_slot star v (node i c s p r) = refl
  info-set_slot param v (node i c s p r) = refl
  info-set_slot reg v (node i c s p r) = refl
  info-set_slot (static k) v (node i c s p r) = refl

module _ {H R : Type 0} (rx : Regexp R) where
  abbrev pub went_on :
      List Bytes → Node H R → Params → Option (Node H R × Params) → Option (Node H R × Params)
  went_on segs cur ps none = if is_any (info cur).typ then some (cur, ps) else none
  went_on segs cur ps (some (c, ps')) = match_segs rx segs c ps'

  pub match_segs-stepped :
      (r : Bytes) (rs : List Bytes) (cur : Node H R) (ps : Params)
      → match_segs rx (r ∷ rs) cur ps ≡ went_on rs cur ps (stepped r ps (child_of rx r cur))
  unfolding match_segs
  match_segs-stepped r rs cur ps = elim (Option-cases (child_of rx r cur)) [
    | inl e ↦ rw (e, match_segs) refl
    | inr ((c, bound), e) ↦ rw (e, match_segs) refl
  ]

  -- The child that a segment gets below a node that has none.
  pub record IsPlaced (seg : Bytes) (i : Info H R) (slot : Slot) (child : Node H R) : Type 0 where
    pub unhandled : (info child).handler ≡ none
    pub childless : child ≡ leaf_node (info child)
    pub wild : is_any (info child).typ ≡ beq seg star_path
    pub matches :
        (v : Node H R) (r : Bytes) (ps : Params)
        → (info v).param_name ≡ (info child).param_name
        → (info v).reg_expr ≡ (info child).reg_expr
        → stepped r ps (child_of rx r (set_slot slot v (leaf_node i)))
          ≡ Option.map (λ q. (v, q)) (allows rx seg r ps)

  star-IsPlaced :
      (seg : Bytes) (i : Info H R) (slot : Slot) (child : Node H R)
      → beq seg star_path ≡ true
      → create_star seg (leaf_node i) ≡ ok (slot, child)
      → IsPlaced seg i slot child
  unfolding create_star star_refusal child_of set_slot allows
  star-IsPlaced seg i slot child a e =
      subst (λ p. IsPlaced seg i p.0 p.1) (pair_of e)
        (record {
          unhandled = refl;
          childless = refl;
          wild = sym a;
          matches = λ v r ps _ _. rw (a, allows) refl;
        })

  param-IsPlaced :
      (seg : Bytes) (i : Info H R) (slot : Slot) (child : Node H R)
      → beq seg star_path ≡ false
      → parse_reg rx seg ≡ ok none
      → is_param seg ≡ true
      → create_param seg (leaf_node i) ≡ ok (slot, child)
      → IsPlaced seg i slot child
  unfolding create_param param_refusal child_of set_slot allows
  param-IsPlaced seg i slot child a b c e =
      subst (λ p. IsPlaced seg i p.0 p.1) (pair_of e)
        (record {
          unhandled = refl;
          childless = refl;
          wild = sym a;
          matches = λ v r ps name _. rw (a, allows) (rw (b, c) (rw name refl));
        })

  static-IsPlaced :
      (seg : Bytes) (i : Info H R) (slot : Slot) (child : Node H R)
      → beq seg star_path ≡ false
      → parse_reg rx seg ≡ ok none
      → is_param seg ≡ false
      → create_static seg (leaf_node i) ≡ ok (slot, child)
      → IsPlaced seg i slot child
  unfolding create_static child_of set_slot allows
  static-IsPlaced seg i slot child a b c e =
      subst (λ p. IsPlaced seg i p.0 p.1) (pair_of e)
        (record {
          unhandled = refl;
          childless = refl;
          wild = sym a;
          matches = λ v r ps _ _.
              rw (a, allows)
                (rw (b, c)
                  (elim (Bool-cases (beq seg r)) [
                    | inl same ↦ rw (same, child_of) refl
                    | inr other ↦ rw (other, child_of) refl
                  ]));
        })

  reg-IsPlaced :
      (seg name : Bytes) (expr : R) (i : Info H R) (slot : Slot) (child : Node H R)
      → beq seg star_path ≡ false
      → parse_reg rx seg ≡ ok (some (name, expr))
      → create_reg seg name expr (leaf_node i) ≡ ok (slot, child)
      → IsPlaced seg i slot child
  unfolding create_reg reg_refusal child_of set_slot allows
  reg-IsPlaced seg name expr i slot child a b e =
      subst (λ p. IsPlaced seg i p.0 p.1) (pair_of e)
        (record {
          unhandled = refl;
          childless = refl;
          wild = sym a;
          matches = λ v r ps named has.
              rw (a, allows)
                (rw b (elim (Bool-cases (rx.match_string expr r)) [
                  | inl same ↦ rw (has, child_of) (rw same (rw named refl))
                  | inr other ↦ rw (has, child_of) (rw other refl)
                ]));
        })

  by-IsPlaced :
      (seg : Bytes) (i : Info H R) (slot : Slot) (child : Node H R)
      (o : Result Panic (Option (Bytes × R)))
      → beq seg star_path ≡ false
      → parse_reg rx seg ≡ o
      → create_by seg (leaf_node i) o ≡ ok (slot, child)
      → IsPlaced seg i slot child
  by-IsPlaced seg i slot child (err x) a b e = cc
  by-IsPlaced seg i slot child (ok (some (name, expr))) a b e =
      reg-IsPlaced seg name expr i slot child a b e
  by-IsPlaced seg i slot child (ok none) a b e = elim (Bool-cases (is_param seg)) [
    | inl colon ↦ param-IsPlaced seg i slot child a b colon (rw colon at e)
    | inr plain ↦ static-IsPlaced seg i slot child a b plain (rw plain at e)
  ]

  pub child_or_create-IsPlaced :
      (seg : Bytes) (i : Info H R) (slot : Slot) (child : Node H R)
      → child_or_create rx seg (leaf_node i) ≡ ok (slot, child)
      → IsPlaced seg i slot child
  unfolding child_or_create
  child_or_create-IsPlaced seg i slot child e = elim (Bool-cases (beq seg star_path)) [
    | inl a ↦ star-IsPlaced seg i slot child a (rw (a, child_or_create) at e)
    | inr a ↦ by-IsPlaced seg i slot child _ a refl (rw (a, child_or_create) at e)
  ]
