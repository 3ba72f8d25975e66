-- ===== src/Rpc/Message/Encode.antt =====
-- What the encoders of message.go write, as a plain concatenation.
use go_study.Prelude.{
  ℕ, ◌+◌, ◌-◌, ◌%◌, ◌≤◌, ◌<◌, ◌≡◌, refl, sym, ap, ◌∙◌, List, [], ◌∷◌, ◌++◌, append-nil,
  append_assoc, arith, le→leb, Result, ok, ◌>>=◌, length, drop, length-append, length-drop,
  length-replicate, drop-append, take-append, drop-drop, drop_all, Bytes,
}
use go_study.Rpc.Message.{
  splitter, pair_splitter, u32_mod, Panic, Request, Response, Buffer, copy, put_at, big_endian,
  copy_cur, advance, put_prefix, put_field, entries, put_meta, make_buffer, encode_req, meta_length,
  cal_head_length, encode_resp,
}

-- `bytes` in place of what stood at the front of `cur`.
abbrev pub emit : Bytes → Buffer → Buffer
emit bytes b = record { written = b.written ++ bytes; cur = drop (length bytes) b.cur }

-- `f` writes `bytes` and steps past them, if there is room.
abbrev pub Emits : (Buffer → Result Panic Buffer) → Bytes → Type 0
Emits f bytes = (b : Buffer) → length bytes ≤ length b.cur → f b ≡ ok (emit bytes b)

emit-emit : (x y : Bytes) (b : Buffer) → emit y (emit x b) ≡ emit (x ++ y) b
emit-emit x y b = rw (append_assoc, drop-drop x y) refl

module _ {f g : Buffer → Result Panic Buffer} {x y : Bytes} where
  Emits-bind : Emits f x → Emits g y → Emits (λ b. f b >>= g) (x ++ y)
  Emits-bind p q b h = rw (p b (omega (arith, length-append x y))) (
      q (emit x b) (omega (arith, length-append x y, length-drop (length x) b.cur))
      ∙ ap ok (emit-emit x y b))

copy_lem : (cur s : Bytes) → length s ≤ length cur → copy cur s ≡ s ++ drop (length s) cur
unfolding copy
copy_lem [] [] h = refl
copy_lem [] (x ∷ s) h = absurd (omega arith)
copy_lem (c ∷ cur) [] h = refl
copy_lem (c ∷ cur) (x ∷ s) h = ap (λ l. x ∷ l) (copy_lem cur s (omega arith))

put_at-append : (s r : Bytes) (c v : ℕ) → put_at (s ++ (c ∷ r)) (length s) v ≡ ok (s ++ (v ∷ r))
unfolding put_at
put_at-append [] r c v = refl
put_at-append (x ∷ s) r c v = rw (put_at-append s r c v) refl

advance-append :
    (w s r : Bytes)
    → advance (length s) (record { written = w; cur = s ++ r })
      ≡ ok (record { written = w ++ s; cur = r })
unfolding advance
advance-append w s r =
    rw (le→leb (length s) (length (s ++ r)) (omega (arith, length-append s r)))
      (rw (take-append s r, drop-append s r) refl)

uncons : (l : Bytes) → 1 ≤ length l → (c : ℕ) × (r : Bytes) × (l ≡ c ∷ r)
uncons [] h = absurd (omega arith)
uncons (c ∷ r) h = (c, r, refl)

pub length-snoc : (s : Bytes) (c : ℕ) → length (s ++ (c ∷ [])) ≡ length s + 1
length-snoc s c = omega (arith, length-append s (c ∷ []))

pub put_field-Emits : (s : Bytes) (sep : ℕ) → Emits (put_field s sep) (s ++ (sep ∷ []))
unfolding put_field
put_field-Emits s sep b h =
    let (c, r, e) =
      uncons (drop (length s) b.cur)
        (omega (arith, length-snoc s sep, length-drop (length s) b.cur)) in
    let copied : copy b.cur s ≡ s ++ (c ∷ r) =
      copy_lem b.cur s (omega (arith, length-snoc s sep)) ∙ ap (λ l. s ++ l) e in
    let left : drop (length (s ++ (sep ∷ []))) b.cur ≡ r =
      sym (drop-drop s (sep ∷ []) b.cur) ∙ ap (λ l. drop 1 l) e in
    rw (copied, put_at-append s r c sep, ← length-snoc s sep, left)
      (rw (← append_assoc s (sep ∷ []) r) (advance-append b.written (s ++ (sep ∷ [])) r))

abbrev pub prefix : (head body id version compressor serializer : ℕ) → Bytes
prefix head body id version compressor serializer =
    big_endian head
    ++ (big_endian body ++ (big_endian id ++ (version ∷ compressor ∷ serializer ∷ [])))

put_prefix-Emits :
    (head body id version compressor serializer : ℕ)
    → Emits
        (put_prefix head body id version compressor serializer)
        (prefix head body id version compressor serializer)
unfolding put_prefix
put_prefix-Emits head body id version compressor serializer b h = at b.written b.cur h
  where
    at :
        (w cur : Bytes)
        → length (prefix head body id version compressor serializer) ≤ length cur
        → put_prefix head body id version compressor serializer (record { written = w; cur = cur })
          ≡ ok (
              emit
                (prefix head body id version compressor serializer)
                (record { written = w; cur = cur }))
    at w (c0 ∷ c1 ∷ c2 ∷ c3 ∷ c4 ∷ c5 ∷ c6 ∷ c7 ∷ c8 ∷ c9 ∷ c10 ∷ c11 ∷ c12 ∷ c13 ∷ c14 ∷ r) h =
        ground (
          arith,
          append_assoc w (big_endian head ++ (big_endian body ++ big_endian id))
              (version ∷ compressor ∷ serializer ∷ []),
        )
    at w _ h = absurd (omega arith)

copy_advance-Emits : (s : Bytes) → Emits (λ b. copy_cur s b >>= advance (length s)) s
unfolding copy_cur
copy_advance-Emits s b h =
    rw (copy_lem b.cur s h) (advance-append b.written s (drop (length s) b.cur))

abbrev pub meta_bytes : List (Bytes × Bytes) → Bytes
meta_bytes [] = []
meta_bytes ((key, value) ∷ m) =
    (key ++ (pair_splitter ∷ [])) ++ ((value ++ (splitter ∷ [])) ++ meta_bytes m)

put_meta-Emits : (m : List (Bytes × Bytes)) → Emits (put_meta m) (meta_bytes m)
unfolding put_meta
put_meta-Emits [] b h = rw append-nil refl
put_meta-Emits ((key, value) ∷ m) b h =
    Emits-bind (put_field-Emits key pair_splitter)
      (Emits-bind (put_field-Emits value splitter) (put_meta-Emits m)) b h

-- The part of a request behind its fifteen bytes of numbers.
abbrev pub names : Request → Bytes
names r =
    (r.service_name ++ (splitter ∷ []))
    ++ ((r.method_name ++ (splitter ∷ [])) ++ meta_bytes (entries r.meta))

pub length-names :
    (r : Request)
    → length (names r)
      ≡ length (r.service_name ++ (splitter ∷ []))
        + (length (r.method_name ++ (splitter ∷ [])) + length (meta_bytes (entries r.meta)))
length-names r = omega (
  arith,
  length-append (r.service_name ++ (splitter ∷ []))
      ((r.method_name ++ (splitter ∷ [])) ++ meta_bytes (entries r.meta)),
  length-append (r.method_name ++ (splitter ∷ [])) (meta_bytes (entries r.meta)),
)

-- The format of a request on the wire.
abbrev pub layout : Request → Bytes
layout r =
    prefix r.head_length r.body_length r.message_id r.version r.compressor r.serializer
    ++ (names r ++ r.payload)

abbrev pub layout_resp : Response → Bytes
layout_resp r =
    prefix r.head_length r.body_length r.message_id r.version r.compressor r.serializer
    ++ (r.error ++ r.payload)

-- The two length fields say how long the parts are, and their sum is a uint32.
pub record IsSized (r : Request) : Type 0 where
  pub head : r.head_length ≡ 15 + length (names r)
  pub body : r.body_length ≡ length r.payload
  pub total : r.head_length + r.body_length < u32_mod

pub record IsSizedResp (r : Response) : Type 0 where
  pub head : r.head_length ≡ 15 + length r.error
  pub body : r.body_length ≡ length r.payload
  pub total : r.head_length + r.body_length < u32_mod

-- A last `copy` that fills the buffer.
copy_cur_fill :
    (bytes : Bytes) (b : Buffer)
    → length b.cur ≡ length bytes
    → (copy_cur bytes b >>= λ b'. ok (b'.written ++ b'.cur)) ≡ ok (b.written ++ bytes)
unfolding copy_cur
copy_cur_fill bytes b h =
    rw (copy_lem b.cur bytes (omega arith), ← h, drop_all) (rw (append-nil bytes) refl)

make_buffer_room :
    (head body : ℕ) → head + body < u32_mod → length (make_buffer head body).cur ≡ head + body
make_buffer_room head body h =
    rw (length-replicate {A = ℕ} ((head + body) % u32_mod) 0) (omega arith)

module _ {f : Buffer → Result Panic Buffer} {x : Bytes} where
  Emits-step {ℓ} :
      {B : Type ℓ}
      → Emits f x
      → (b : Buffer) (k : Buffer → Result Panic B) → length x ≤ length b.cur
      → (f b >>= k) ≡ k (emit x b)
  Emits-step e b k h = rw (e b h) refl

-- With its length fields set, and their sum below 2 ^ 32, encoding a request never panics and writes
-- the prefix, the names, the metadata and the data.
pub encode_req-layout : (r : Request) → IsSized r → encode_req r ≡ ok (layout r)
unfolding encode_req
encode_req-layout r sized =
    Emits-step
      (put_prefix-Emits r.head_length r.body_length r.message_id r.version r.compressor
        r.serializer)
      b0 _ (omega (arith, room))
    ∙ Emits-step (put_field-Emits r.service_name splitter) b1 _ (omega (arith, room, room1, sizes))
    ∙ Emits-step (put_field-Emits r.method_name splitter) b2 _
        (omega (arith, room, room1, room2, sizes))
    ∙ Emits-step (put_meta-Emits (entries r.meta)) b3 _
        (omega (arith, room, room1, room2, room3, sizes))
    ∙ copy_cur_fill r.payload b4 (omega (arith, room, room1, room2, room3, room4, sizes))
    ∙ simp append_assoc
  where
    b0 : Buffer
    b0 = make_buffer r.head_length r.body_length

    b1 : Buffer
    b1 =
        emit (prefix r.head_length r.body_length r.message_id r.version r.compressor r.serializer)
          b0

    b2 : Buffer
    b2 = emit (r.service_name ++ (splitter ∷ [])) b1

    b3 : Buffer
    b3 = emit (r.method_name ++ (splitter ∷ [])) b2

    b4 : Buffer
    b4 = emit (meta_bytes (entries r.meta)) b3

    room : length b0.cur ≡ r.head_length + r.body_length
    room = make_buffer_room r.head_length r.body_length sized.total

    room1 : length b1.cur ≡ length b0.cur - 15
    room1 = length-drop 15 b0.cur

    room2 : length b2.cur ≡ length b1.cur - length (r.service_name ++ (splitter ∷ []))
    room2 = length-drop (length (r.service_name ++ (splitter ∷ []))) b1.cur

    room3 : length b3.cur ≡ length b2.cur - length (r.method_name ++ (splitter ∷ []))
    room3 = length-drop (length (r.method_name ++ (splitter ∷ []))) b2.cur

    room4 : length b4.cur ≡ length b3.cur - length (meta_bytes (entries r.meta))
    room4 = length-drop (length (meta_bytes (entries r.meta))) b3.cur

    sizes :
        r.head_length
        ≡ 15
          + (length (r.service_name ++ (splitter ∷ []))
              + (length (r.method_name ++ (splitter ∷ [])) + length (meta_bytes (entries r.meta))))
    sizes = omega (arith, sized.head, length-names r)

-- With its length fields set, and their sum below 2 ^ 32, encoding a response never panics and
-- writes the prefix, the error and the data.
pub encode_resp-layout : (r : Response) → IsSizedResp r → encode_resp r ≡ ok (layout_resp r)
unfolding encode_resp
encode_resp-layout r sized =
    Emits-step
      (put_prefix-Emits r.head_length r.body_length r.message_id r.version r.compressor
        r.serializer)
      b0 _ (omega (arith, room))
    ∙ Emits-step error-Emits b1 _ (omega (arith, room, sized.head, length-drop 15 b0.cur))
    ∙ copy_cur_fill r.payload (emit r.error b1) (
        omega (arith, room, sized.head, length-drop 15 b0.cur, length-drop (length r.error) b1.cur))
    ∙ simp append_assoc
  where
    b0 : Buffer
    b0 = make_buffer r.head_length r.body_length

    b1 : Buffer
    b1 =
        emit (prefix r.head_length r.body_length r.message_id r.version r.compressor r.serializer)
          b0

    room : length b0.cur ≡ r.head_length + r.body_length
    room = make_buffer_room r.head_length r.body_length sized.total

    error-Emits : Emits (λ b. copy_cur r.error b >>= advance (length r.error)) r.error
    error-Emits = copy_advance-Emits r.error

meta_length_lem :
    (m : List (Bytes × Bytes)) (res : ℕ) → meta_length m res ≡ res + length (meta_bytes m)
unfolding meta_length
meta_length_lem [] res = omega arith
meta_length_lem ((key, value) ∷ m) res = omega (
  arith,
  meta_length_lem m (res + length key + 1 + length value + 1),
  length-append (key ++ (pair_splitter ∷ [])) ((value ++ (splitter ∷ [])) ++ meta_bytes m),
  length-append (value ++ (splitter ∷ [])) (meta_bytes m),
  length-snoc key pair_splitter,
  length-snoc value splitter,
)

meta_length-names :
    (r : Request)
    → meta_length (entries r.meta) (15 + length r.service_name + 1 + length r.method_name + 1)
      ≡ 15 + length (names r)
meta_length-names r = omega (
  arith,
  meta_length_lem (entries r.meta) (15 + length r.service_name + 1 + length r.method_name + 1),
  length-names r,
  length-snoc r.service_name splitter,
  length-snoc r.method_name splitter,
)

-- `CalHeadLength` and a body length that fits make a request whose two length fields are right.
pub cal_head_length-IsSized :
    (r : Request)
    → 15 + length (names r) + length r.payload < u32_mod
    → r.body_length ≡ length r.payload
    → IsSized (cal_head_length r)
unfolding cal_head_length
cal_head_length-IsSized r fits body = record {
  head = omega (arith, meta_length-names r);
  body = body;
  total = omega (arith, meta_length-names r);
}
