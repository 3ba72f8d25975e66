-- ===== src/Rpc/Message/Totality.antt =====
-- The decoders of message.go on any bytes: the loop over the metadata ends, and what is too short
-- is a panic.
use go_study.Prelude.{
  ℕ, zero, suc, ◌+◌, ◌-◌, ◌≤◌, ◌<◌, ◌≡◌, ◌≢◌, refl, List, [], ◌∷◌, arith, Result, ok, err, ◌>>=◌,
  inl, inr, Option-cases, >>=-eq-ok, ◌∙◌, length, length-take, length-drop, drop, Bytes, index_byte,
  insert,
}
use go_study.Rpc.Message.{
  splitter, pair_splitter, Panic, out_of_range, stuck, get_at, slice, read_u32, cut, decode_meta,
  decode_rest, decode_req, decode_resp,
}

-- The step does not run out of fuel.
abbrev pub Ends {ℓ} : {A : Type ℓ} → Result Panic A → Type ℓ
Ends r = r ≢ err stuck

Ends-bind {ι κ} :
    {V : Type ι} {W : Type κ} (step : Result Panic V) (next : V → Result Panic W)
    → Ends step
    → ((v : V) → step ≡ ok v → Ends (next v))
    → Ends (step >>= next)
Ends-bind (err stuck) next h k = absurd (h refl)
Ends-bind (err out_of_range) next h k = λ e. cc
Ends-bind (ok v) next h k = k v refl

slice-Ends : (lo hi : ℕ) (bs : Bytes) → Ends (slice lo hi bs)
unfolding slice
slice-Ends lo hi bs = ground arith

cut-Ends : (sep : ℕ) (bs : Bytes) → Ends (cut sep bs)
unfolding cut
cut-Ends sep bs = elim (Option-cases (index_byte bs sep)) [
  | inl e ↦ rw (e, cut) (λ q. cc)
  | inr (i, e) ↦
      rw (e, cut)
        (Ends-bind (slice 0 i bs) _ (slice-Ends 0 i bs) λ before _.
          Ends-bind (slice (i + 1) (length bs) bs) _ (slice-Ends (i + 1) (length bs) bs)
            λ after _ q. cc)
]

slice_shorter : (i : ℕ) (bs b : Bytes) → slice (i + 1) (length bs) bs ≡ ok b → length b < length bs
unfolding slice
slice_shorter i bs b e =
    ground (arith, length-take (length bs - (i + 1)) (drop (i + 1) bs), length-drop (i + 1) bs)

cut_shorter : (sep : ℕ) (bs a b : Bytes) → cut sep bs ≡ ok (a, b) → length b < length bs
unfolding cut
cut_shorter sep bs a b e = elim (Option-cases (index_byte bs sep)) [
  | inl missing ↦ cc (rw (missing, cut) at e)
  | inr (i, found) ↦
      let (before, _, e1) = >>=-eq-ok (slice 0 i bs) _ (rw (found, cut) at e) in
      let (after, sliced, e2) = >>=-eq-ok (slice (i + 1) (length bs) bs) _ e1 in
      slice_shorter i bs b (sliced ∙ cc)
]

decode_meta-Ends :
    (fuel : ℕ) (head : Bytes) (m : List (Bytes × Bytes))
    → length head ≤ fuel
    → Ends (decode_meta fuel head m)
unfolding decode_meta
decode_meta-Ends zero [] m h = unfold index_byte in λ e. cc
decode_meta-Ends zero (b ∷ bs) m h = absurd (omega arith)
decode_meta-Ends (suc fuel) head m h = elim (Option-cases (index_byte head splitter)) [
  | inl e ↦ rw (e, decode_meta) (λ q. cc)
  | inr (i, e) ↦
      rw (e, decode_meta)
        (Ends-bind (cut splitter head) _ (cut-Ends splitter head) λ p e1.
          Ends-bind (cut pair_splitter p.0) _ (cut-Ends pair_splitter p.0) λ kv _.
            decode_meta-Ends fuel p.1 (insert kv.0 kv.1 m)
              (omega (arith, cut_shorter splitter head p.0 p.1 e1)))
]

get_at-Ends : (i : ℕ) (bs : Bytes) → Ends (get_at i bs)
unfolding get_at
get_at-Ends i [] = λ e. cc
get_at-Ends zero (b ∷ bs) = λ e. cc
get_at-Ends (suc i) (b ∷ bs) = get_at-Ends i bs

read_u32-Ends : (i : ℕ) (bs : Bytes) → Ends (read_u32 i bs)
unfolding read_u32
read_u32-Ends i bs = Ends-bind (get_at i bs) _ (get_at-Ends i bs) λ b0 _.
    Ends-bind (get_at (i + 1) bs) _ (get_at-Ends (i + 1) bs) λ b1 _.
      Ends-bind (get_at (i + 2) bs) _ (get_at-Ends (i + 2) bs)
        λ b2 _. Ends-bind (get_at (i + 3) bs) _ (get_at-Ends (i + 3) bs) λ b3 _ q. cc

decode_rest-Ends : (bs : Bytes) → Ends (decode_rest bs)
unfolding decode_rest
decode_rest-Ends [] = λ q. cc
decode_rest-Ends (b ∷ bs) =
    Ends-bind (decode_meta (length (b ∷ bs)) (b ∷ bs) []) _
      (decode_meta-Ends (length (b ∷ bs)) (b ∷ bs) [] (omega arith)) λ m _ q. cc

-- On any bytes, `DecodeReq` returns a request or panics: its loop over the metadata ends.
pub decode_req-Ends : (bs : Bytes) → Ends (decode_req bs)
unfolding decode_req
decode_req-Ends bs = Ends-bind (read_u32 0 bs) _ (read_u32-Ends 0 bs) λ head _.
    Ends-bind (read_u32 4 bs) _ (read_u32-Ends 4 bs) λ body _.
      Ends-bind (read_u32 8 bs) _ (read_u32-Ends 8 bs) λ id _.
        Ends-bind (get_at 12 bs) _ (get_at-Ends 12 bs) λ v _.
          Ends-bind (get_at 13 bs) _ (get_at-Ends 13 bs) λ c _.
            Ends-bind (get_at 14 bs) _ (get_at-Ends 14 bs) λ s _.
              Ends-bind (slice 15 head bs) _ (slice-Ends 15 head bs) λ h _.
                Ends-bind (cut splitter h) _ (cut-Ends splitter h) λ n _.
                  Ends-bind (cut splitter n.1) _ (cut-Ends splitter n.1) λ m _.
                    Ends-bind (decode_rest m.1) _ (decode_rest-Ends m.1) λ meta _.
                      Ends-bind (slice head (length bs) bs) _ (slice-Ends head (length bs) bs)
                        λ p _ q. cc

-- Every index behind the end panics.
get_at_short : (i : ℕ) (bs : Bytes) → length bs ≤ i → get_at i bs ≡ err out_of_range
unfolding get_at
get_at_short i [] h = refl
get_at_short zero (b ∷ bs) h = absurd (omega arith)
get_at_short (suc i) (b ∷ bs) h = get_at_short i bs (omega arith)

-- Binding in front of a panic panics.
panics-bind {ℓ κ} :
    {A : Type ℓ} {B : Type κ} (m : Result Panic A) (f : A → Result Panic B)
    → Ends m
    → ((a : A) → f a ≡ err out_of_range)
    → (m >>= f) ≡ err out_of_range
panics-bind (ok a) f h k = k a
panics-bind (err out_of_range) f h k = refl
panics-bind (err stuck) f h k = absurd (h refl)

-- What follows the fifteenth byte is never reached.
prefix_short {ℓ} :
    {B : Type ℓ} (bs : Bytes)
    (f : (head body id version compressor serializer : ℕ) → Result Panic B)
    → length bs < 15
    → (read_u32 0 bs >>= λ head. read_u32 4 bs >>= λ body. read_u32 8 bs >>= λ id.
        get_at 12 bs >>= λ version. get_at 13 bs >>= λ compressor.
        get_at 14 bs >>= λ serializer. f head body id version compressor serializer)
      ≡ err out_of_range
prefix_short bs f short = panics-bind (read_u32 0 bs) _ (read_u32-Ends 0 bs) λ head.
    panics-bind (read_u32 4 bs) _ (read_u32-Ends 4 bs) λ body.
      panics-bind (read_u32 8 bs) _ (read_u32-Ends 8 bs) λ id.
        panics-bind (get_at 12 bs) _ (get_at-Ends 12 bs) λ v.
          panics-bind (get_at 13 bs) _ (get_at-Ends 13 bs)
            λ c. rw (get_at_short 14 bs (omega arith)) refl

-- Neither decoder checks how much it was given: fewer than fifteen bytes make both panic.
pub decode_short :
    (bs : Bytes)
    → length bs < 15
    → (decode_req bs ≡ err out_of_range) × (decode_resp bs ≡ err out_of_range)
unfolding decode_req decode_resp
decode_short bs short = (prefix_short bs _ short, prefix_short bs _ short)
