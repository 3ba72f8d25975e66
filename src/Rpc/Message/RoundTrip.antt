-- ===== src/Rpc/Message/RoundTrip.antt =====
-- Decoding what was encoded, for both kinds of message of message.go.
use go_study.Prelude.{
  ℕ, ◌+◌, ◌*◌, ◌/◌, ◌%◌, ◌^◌, ◌≤◌, ◌<◌, ◌≡◌, refl, ap, subst, ◌∙◌, List, [], ◌∷◌, ◌++◌, arith, ok,
  ◌>>=◌, length, All, none, some, length-append, Bytes, Lacks,
}
use go_study.Rpc.Message.{
  splitter, pair_splitter, u32_mod, Meta, Request, Response, entries, get_at, slice, read_u32,
  decode_meta, decode_rest, decode_req, decode_resp, encode_req, encode_resp,
}
use go_study.Rpc.Message.Encode.{
  length-snoc, prefix, meta_bytes, names, layout, IsSized, IsSizedResp, encode_req-layout,
  encode_resp-layout,
}
use go_study.Rpc.Message.Decode.{
  slice-append_mid, slice-append_end, cut-append, IsCleanEntry, HasDistinctKeys,
  decode_meta-meta_bytes,
}

pub u32_value :
    (v : ℕ)
    → v < u32_mod
    → v % 256 + v / 2 ^ 8 % 256 * 2 ^ 8 + v / 2 ^ 16 % 256 * 2 ^ 16 + v / 2 ^ 24 % 256 * 2 ^ 24 ≡ v
u32_value v h = omega arith

-- The three numbers at the front of a message.
record ReadsPrefix (head body id version compressor serializer : ℕ) (bs : Bytes) : Type 0 where
  head_read : read_u32 0 bs ≡ ok head
  body_read : read_u32 4 bs ≡ ok body
  id_read : read_u32 8 bs ≡ ok id
  version_read : get_at 12 bs ≡ ok version
  compressor_read : get_at 13 bs ≡ ok compressor
  serializer_read : get_at 14 bs ≡ ok serializer

prefix-ReadsPrefix :
    (head body id version compressor serializer : ℕ) (rest : Bytes)
    → head < u32_mod
    → body < u32_mod
    → id < u32_mod
    → ReadsPrefix head body id version compressor serializer
        (prefix head body id version compressor serializer ++ rest)
unfolding read_u32 get_at
prefix-ReadsPrefix head body id version compressor serializer rest h b i = record {
  head_read = ap ok (u32_value head h);
  body_read = ap ok (u32_value body b);
  id_read = ap ok (u32_value id i);
  version_read = refl;
  compressor_read = refl;
  serializer_read = refl;
}

-- A map as the decoder leaves it: nil where no entry was read.
abbrev pub read_meta : List (Bytes × Bytes) → Meta
read_meta [] = none
read_meta (e ∷ m) = some (e ∷ m)

length-meta_bytes : (m : List (Bytes × Bytes)) → length m ≤ length (meta_bytes m)
length-meta_bytes [] = omega arith
length-meta_bytes ((key, value) ∷ m) = omega (
  arith,
  length-meta_bytes m,
  length-append (key ++ (pair_splitter ∷ [])) ((value ++ (splitter ∷ [])) ++ meta_bytes m),
  length-append (value ++ (splitter ∷ [])) (meta_bytes m),
  length-snoc key pair_splitter,
)

decode_rest_of_pos :
    (l : Bytes) → 1 ≤ length l → decode_rest l ≡ (decode_meta (length l) l [] >>= λ m. ok (some m))
unfolding decode_rest
decode_rest_of_pos [] h = absurd (omega arith)
decode_rest_of_pos (b ∷ l) h = refl

decode_rest-meta_bytes :
    (m : List (Bytes × Bytes))
    → All IsCleanEntry m
    → HasDistinctKeys m
    → decode_rest (meta_bytes m) ≡ ok (read_meta m)
decode_rest-meta_bytes [] c d = unfold decode_rest in refl
decode_rest-meta_bytes (e ∷ m) c d =
    decode_rest_of_pos (meta_bytes (e ∷ m)) (omega (arith, length-meta_bytes (e ∷ m)))
    ∙ rw
        (decode_meta-meta_bytes (length (meta_bytes (e ∷ m))) (e ∷ m) [] (length-meta_bytes (e ∷ m))
          c d (apart (e ∷ m)))
        refl
  where
    apart : (l : List (Bytes × Bytes)) → All (λ e. Unit {0}) l
    apart [] = tt
    apart (e ∷ l) = (tt, apart l)

-- The requests that the format can carry.
pub record IsCarried (r : Request) : Type 0 where
  pub sized : IsSized r
  pub id : r.message_id < u32_mod
  pub service : Lacks splitter r.service_name
  pub method : Lacks splitter r.method_name
  pub clean : All IsCleanEntry (entries r.meta)
  pub distinct : HasDistinctKeys (entries r.meta)

module _ (head body id version compressor serializer : ℕ) (front back : Bytes) where
  -- The two slices that the decoders take behind the numbers.
  slices_lem :
      head ≡ 15 + length front
      → (slice 15 head (prefix head body id version compressor serializer ++ (front ++ back))
          ≡ ok front)
        × (slice head
              (length (prefix head body id version compressor serializer ++ (front ++ back)))
              (prefix head body id version compressor serializer ++ (front ++ back))
            ≡ ok back)
  slices_lem h = (
    subst (λ n. slice 15 n whole ≡ ok front) len (slice-append_mid numbers front back),
    subst (λ n. slice n (length whole) whole ≡ ok back) len
        (slice-append_end (numbers ++ front) back),
  )
    where
      numbers : Bytes
      numbers = prefix head body id version compressor serializer

      whole : Bytes
      whole = numbers ++ (front ++ back)

      len : length (numbers ++ front) ≡ head
      len = omega (arith, h)

pub decode_req-layout :
    (r : Request)
    → IsCarried r
    → decode_req (layout r) ≡ ok (record r { meta = read_meta (entries r.meta) })
unfolding decode_req
decode_req-layout r c =
    let p =
      prefix-ReadsPrefix r.head_length r.body_length r.message_id r.version r.compressor
        r.serializer (names r ++ r.payload) (omega arith) (omega arith) c.id in
    let (front, back) =
      slices_lem r.head_length r.body_length r.message_id r.version r.compressor r.serializer
        (names r) r.payload c.sized.head in
    rw p.head_read (
      rw p.body_read (
        rw p.id_read (
          rw p.version_read (
            rw p.compressor_read (
              rw p.serializer_read (
                rw front (
                  rw (cut-append splitter r.service_name _ c.service) (
                    rw (cut-append splitter r.method_name _ c.method) (
                      rw (decode_rest-meta_bytes (entries r.meta) c.clean c.distinct)
                        (rw back refl))))))))))

-- Decoding an encoded request gives it back, up to an empty map that is read as nil: its length
-- fields must say how long it is, the names must be free of the separators, and the keys of the
-- metadata distinct. Neither side panics.
pub decode_req-encode_req :
    (r : Request)
    → IsCarried r
    → (encode_req r >>= decode_req) ≡ ok (record r { meta = read_meta (entries r.meta) })
decode_req-encode_req r c = rw (encode_req-layout r c.sized) (decode_req-layout r c)

-- Decoding an encoded response gives it back, whatever bytes its error and its data hold.
pub decode_resp-encode_resp :
    (r : Response) → IsSizedResp r → r.message_id < u32_mod → (encode_resp r >>= decode_resp) ≡ ok r
unfolding decode_resp
decode_resp-encode_resp r sized id =
    let p =
      prefix-ReadsPrefix r.head_length r.body_length r.message_id r.version r.compressor
        r.serializer (r.error ++ r.payload) (omega arith) (omega arith) id in
    let (front, back) =
      slices_lem r.head_length r.body_length r.message_id r.version r.compressor r.serializer
        r.error r.payload sized.head in
    rw (encode_resp-layout r sized) (
      rw p.head_read (
        rw p.body_read (
          rw p.id_read (
            rw p.version_read
              (rw p.compressor_read (rw p.serializer_read (rw front (rw back refl))))))))
