-- ===== src/Rpc/Balance/Fastest/Refresh.antt =====
-- rpc/homework2/loadbalance/fastest/balancer.go: a refresh of the response times, as a function of
-- each connection.
use mathlib.Core.List.{map-id, map-map}
use go_study.Prelude.{
  beq_iff, ℕ, ◌≡◌, inl, inr, sym, ap, ◌∙◌, subst, List, [], ◌∷◌, Option, none, some, if◌then◌else◌,
  Bool-cases, Option-cases, map, Result, ok, >>=-eq-ok, Bytes, bytes, beq, lookup,
}
use go_study.Rpc.Balance.Fastest.{
  Conn, Stop, Sample, reply, set_time, update_conns, update_from, update_resp_time,
}

abbrev value_time : (Bytes → Option ℕ) → Option Bytes → Option ℕ
value_time parse none = none
value_time parse (some v) = parse v

conns-inj : {A : Type 0} {a b : List A} → ◌≡◌ {A = Result Stop (List A)} (ok a) (ok b) → a ≡ b
conns-inj e = cc

module _ {C D : Type 0} (addr : D → Bytes) (parse : Bytes → Option ℕ) where
  -- What a result does to one connection.
  abbrev one_time : Bytes → Option Bytes → Conn C D → Conn C D
  one_time address value c =
      if beq (addr c.address) address then set_time (value_time parse value) c else c

  -- What a refresh does to one connection: the results are read in order, up to the first that has
  -- no address, and each with the connection's address and a number sets its time.
  abbrev pub refresh : List Sample → Conn C D → Conn C D
  refresh [] c = c
  refresh (r ∷ results) c = elim (lookup (bytes "address") r.metric) [
    | none ↦ c
    | some address ↦ refresh results (one_time address r.value c)
  ]

  update_conns-map :
      (address : Bytes) (value : Option Bytes) (conns conns' : List (Conn C D))
      → update_conns addr parse address value conns ≡ ok conns'
      → conns' ≡ map (one_time address value) conns
  unfolding update_conns
  update_conns-map address value [] conns' e = sym (conns-inj e)
  update_conns-map address none (c ∷ conns) conns' e =
      elim (Bool-cases (beq (addr c.address) address)) [
        | inl same ↦ cc (rw (same, update_conns) at e)
        | inr other ↦
            let (rest, h, whole) =
              >>=-eq-ok (update_conns addr parse address none conns) (λ rest. ok (c ∷ rest))
                (rw (other, update_conns) at e) in
            rw other
              (sym (conns-inj whole) ∙ ap (λ l. c ∷ l) (update_conns-map address none conns rest h))
      ]
  update_conns-map address (some v) (c ∷ conns) conns' e =
      elim (Bool-cases (beq (addr c.address) address)) [
        | inl same ↦
            let (rest, h, whole) =
              >>=-eq-ok (update_conns addr parse address (some v) conns)
                (λ rest. ok (set_time (parse v) c ∷ rest)) (rw (same, update_conns) at e) in
            rw same (
              sym (conns-inj whole)
              ∙ ap (λ l. set_time (parse v) c ∷ l) (update_conns-map address (some v) conns rest h))
        | inr other ↦
            let (rest, h, whole) =
              >>=-eq-ok (update_conns addr parse address (some v) conns) (λ rest. ok (c ∷ rest))
                (rw (other, update_conns) at e) in
            rw other (
              sym (conns-inj whole)
              ∙ ap (λ l. c ∷ l) (update_conns-map address (some v) conns rest h))
      ]

  -- The connections after a result with that address, if it has one, and the results behind it.
  abbrev IsRefreshed :
      Sample → List Sample → (conns conns' : List (Conn C D)) → Option Bytes → Type 0
  IsRefreshed r results conns conns' o =
      conns'
      ≡ map (λ c. elim o [ none ↦ c | some address ↦ refresh results (one_time address r.value c) ])
          conns

  update_from-map :
      (results : List Sample) (conns conns' : List (Conn C D))
      → update_from addr parse results conns ≡ ok conns'
      → conns' ≡ map (refresh results) conns
  unfolding update_from
  update_from-map [] conns conns' e = sym (conns-inj e) ∙ sym (map-id conns)
  update_from-map (r ∷ results) conns conns' e =
      elim (Option-cases (lookup (bytes "address") r.metric)) [
        | inl missing ↦
            subst (IsRefreshed r results conns conns') (sym missing)
              (sym (conns-inj (rw (missing, update_from) at e)) ∙ sym (map-id conns))
        | inr (address, found) ↦
            let (next, h, whole) =
              >>=-eq-ok (update_conns addr parse address r.value conns)
                (update_from addr parse results) (rw (found, update_from) at e) in
            subst (IsRefreshed r results conns conns') (sym found) (
              update_from-map results next conns' whole
              ∙ ap (map (refresh results)) (update_conns-map address r.value conns next h)
              ∙ map-map (refresh results) (one_time address r.value) conns)
      ]

  -- A refresh that does not end the program goes over the results for each connection on its own:
  -- results for other addresses do not matter, and the last one with a number counts.
  pub update_resp_time-refresh :
      (status : Bytes) (results : List Sample) (conns conns' : List (Conn C D))
      → update_resp_time addr parse (reply status results) conns ≡ ok conns'
      → (status ≡ bytes "success") × (conns' ≡ map (refresh results) conns)
  unfolding update_resp_time
  update_resp_time-refresh status results conns conns' e =
      elim (Bool-cases (beq status (bytes "success"))) [
        | inl success ↦ (
          (beq_iff status (bytes "success")).0 success,
          update_from-map results conns conns' (rw (success, update_resp_time) at e),
        )
        | inr failure ↦ cc (rw (failure, update_resp_time) at e)
      ]
