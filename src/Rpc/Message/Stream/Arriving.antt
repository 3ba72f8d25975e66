-- ===== src/Rpc/Message/Stream/Arriving.antt =====
-- rpc/homework1/tcp.go: a message that was encoded, read from the connection.
use go_study.Prelude.{
  ℕ, zero, suc, ◌+◌, ◌-◌, ◌%◌, ◌≤◌, ◌<◌, ◌≡◌, refl, sym, ap, ◌∙◌, inl, inr, Bool, true, Option,
  none, some, [], ◌∷◌, ◌++◌, arith, leb, le→leb, leb→le, ok, length, take, drop, Bytes, Bool-cases,
  length-append, length-drop, drop-append, take-append, append-nil, subst,
}
use go_study.Rpc.Message.{u32_mod, Request, Response, big_endian, read_u32, get_at, encode_req}
use go_study.Rpc.Message.Encode.{
  layout, layout_resp, names, IsSized, IsSizedResp, encode_req-layout,
}
use go_study.Rpc.Message.RoundTrip.{u32_value}
use go_study.Rpc.Message.Stream.{
  Conn, ReadError, put_back, read_full, filled, read_body, read_rest, read_msg,
}

-- What a connection will bring.
abbrev pub arriving : Conn → Bytes
arriving [] = []
arriving (c ∷ conn) = c ++ arriving conn

pub put_back-arriving :
    (bs : Bytes) (conn : Conn) → arriving (put_back bs conn) ≡ bs ++ arriving conn
put_back-arriving [] conn = refl
put_back-arriving (b ∷ bs) conn = refl

take_within :
    (n : ℕ) (xs ys : Bytes)
    → n ≤ length xs
    → (take n (xs ++ ys) ≡ take n xs) × (drop n (xs ++ ys) ≡ drop n xs ++ ys)
take_within zero xs ys h = (refl, refl)
take_within (suc n) [] ys h = absurd (omega arith)
take_within (suc n) (x ∷ xs) ys h =
    let (t, d) = take_within n xs ys (omega arith) in (ap (λ l. x ∷ l) t, d)

take_past :
    (n : ℕ) (xs ys : Bytes)
    → length xs ≤ n
    → (take n (xs ++ ys) ≡ xs ++ take (n - length xs) ys)
      × (drop n (xs ++ ys) ≡ drop (n - length xs) ys)
take_past n [] ys h = (ap (λ k. take k ys) (omega arith), ap (λ k. drop k ys) (omega arith))
take_past zero (x ∷ xs) ys h = absurd (omega arith)
take_past (suc n) (x ∷ xs) ys h =
    let (t, d) = take_past n xs ys (omega arith) in
    let e : n - length xs ≡ suc n - suc (length xs) = omega arith in
    (ap (λ l. x ∷ l) t ∙ ap (λ k. x ∷ (xs ++ take k ys)) e, d ∙ ap (λ k. drop k ys) e)

take-drop : (n : ℕ) (xs : Bytes) → take n xs ++ drop n xs ≡ xs
take-drop zero xs = refl
take-drop (suc n) [] = refl
take-drop (suc n) (x ∷ xs) = ap (λ l. x ∷ l) (take-drop n xs)

read_full-arriving :
    (n : ℕ) (conn : Conn)
    → n ≤ length (arriving conn)
    → ((read_full n conn).1 ≡ (take n (arriving conn), true))
      × (arriving (read_full n conn).0 ≡ drop n (arriving conn))
unfolding read_full
read_full-arriving zero [] h = (refl, refl)
read_full-arriving (suc n) [] h = absurd (omega arith)
read_full-arriving n (c ∷ conn) h = elim (Bool-cases (leb n (length c))) [
  | inl here ↦
      let (t, d) = take_within n c (arriving conn) (leb→le n (length c) here) in
      (
        rw (here, read_full) (ap (λ l. (l, true)) (sym t)),
        rw (here, read_full) (put_back-arriving (drop n c) conn ∙ sym d),
      )
  | inr further ↦
      let past : length c ≤ n = ground arith in
      let (t, d) = take_past n c (arriving conn) past in
      let (got, left) =
        read_full-arriving (n - length c) conn (omega (arith, length-append c (arriving conn))) in
      (
        rw (further, read_full)
            (ap (λ (p : Bytes × Bool). (c ++ p.0, p.1)) got ∙ ap (λ l. (l, true)) (sym t)),
        rw (further, read_full) (left ∙ sym d),
      )
]

-- A message that begins with its two lengths.
pub record IsFramed (head body : ℕ) (msg : Bytes) : Type 0 where
  pub begins : (rest : Bytes) → take 8 (msg ++ rest) ≡ big_endian head ++ big_endian body
  pub size : length msg ≡ head + body
  pub long : 8 ≤ head + body
  pub fits : head + body < u32_mod

read_lengths :
    (head body : ℕ)
    → head < u32_mod
    → body < u32_mod
    → (read_u32 0 (big_endian head ++ big_endian body) ≡ ok head)
      × (read_u32 4 (big_endian head ++ big_endian body) ≡ ok body)
unfolding read_u32 get_at
read_lengths head body h b = (ap ok (u32_value head h), ap ok (u32_value body b))

pub layout-IsFramed : (r : Request) → IsSized r → IsFramed r.head_length r.body_length (layout r)
layout-IsFramed r sized = record {
  begins = λ rest. refl;
  size = omega (arith, sized.head, sized.body, length-append (names r) r.payload);
  long = omega (arith, sized.head);
  fits = sized.total;
}

pub layout_resp-IsFramed :
    (r : Response) → IsSizedResp r → IsFramed r.head_length r.body_length (layout_resp r)
layout_resp-IsFramed r sized = record {
  begins = λ rest. refl;
  size = omega (arith, sized.head, sized.body, length-append r.error r.payload);
  long = omega (arith, sized.head);
  fits = sized.total;
}

filled_up :
    (n : ℕ) (len tail : Bytes) (ran : Conn × (Bytes × Bool))
    → length tail ≡ n
    → ran.1 ≡ (tail, true)
    → filled n len ran ≡ (ran.0, (len ++ tail, none))
filled_up n len tail (conn, got) size e =
    let none_left : n - length tail ≡ 0 = omega arith in
    rw e (rw none_left (rw (append-nil tail) refl))

read_body-arriving :
    (head body : ℕ) (len tail rest : Bytes) (conn : Conn)
    → 8 ≤ head + body
    → head + body < u32_mod
    → length tail ≡ head + body - 8
    → arriving conn ≡ tail ++ rest
    → ((read_body len conn (ok head) (ok body)).1 ≡ (len ++ tail, none))
      × (arriving (read_body len conn (ok head) (ok body)).0 ≡ rest)
unfolding read_body
read_body-arriving head body len tail rest conn long fits size comes =
    let same : (head + body) % u32_mod ≡ head + body = omega arith in
    let (got, left) =
      read_full-arriving (head + body - 8) conn
        (rw comes (omega (arith, size, length-append tail rest))) in
    let t : take (head + body - 8) (arriving conn) ≡ tail =
      rw (comes, ← size) (take-append tail rest) in
    let d : drop (head + body - 8) (arriving conn) ≡ rest =
      rw (comes, ← size) (drop-append tail rest) in
    let whole =
      filled_up (head + body - 8) len tail (read_full (head + body - 8) conn) size
        (got ∙ ap (λ l. (l, true)) t) in
    let enough : leb 8 (head + body) ≡ true = le→leb 8 (head + body) long in
    let ran : read_body len conn (ok head) (ok body)
        ≡ ((read_full (head + body - 8) conn).0, (len ++ tail, none)) =
      rw (same, read_body) (rw enough whole) in
    (
      ap (λ (p : Conn × (Bytes × Option ReadError)). p.1) ran,
      ap (λ (p : Conn × (Bytes × Option ReadError)). arriving p.0) ran ∙ left ∙ d,
    )

abbrev pub IsRead : Conn × (Bytes × Option ReadError) → (msg rest : Bytes) → Type 0
IsRead ran msg rest = (ran.1 ≡ (msg, none)) × (arriving ran.0 ≡ rest)

pub read_msg-IsRead :
    (head body : ℕ) (msg rest c : Bytes) (conn : Conn)
    → IsFramed head body msg
    → 8 ≤ length c
    → arriving (c ∷ conn) ≡ msg ++ rest
    → IsRead (read_msg (c ∷ conn)) msg rest
unfolding read_msg
read_msg-IsRead head body msg rest c conn framed enough comes =
    let (t, d) = take_within 8 c (arriving conn) enough in
    let (t', d') = take_within 8 msg rest (omega (arith, framed.size, framed.long)) in
    let lens : take 8 c ≡ big_endian head ++ big_endian body =
      sym t ∙ ap (take 8) comes ∙ framed.begins rest in
    let front : big_endian head ++ big_endian body ≡ take 8 msg = sym (framed.begins rest) ∙ t' in
    let left : arriving (put_back (drop 8 c) conn) ≡ drop 8 msg ++ rest =
      put_back-arriving (drop 8 c) conn ∙ sym d ∙ ap (drop 8) comes ∙ d' in
    let (h, b) = read_lengths head body (omega (arith, framed.fits)) (omega (arith, framed.fits)) in
    let done =
      read_body-arriving head body (big_endian head ++ big_endian body) (drop 8 msg) rest
        (put_back (drop 8 c) conn) framed.long framed.fits
        (omega (arith, framed.size, length-drop 8 msg)) left in
    let conn' = put_back (drop 8 c) conn in
    let len = big_endian head ++ big_endian body in
    let ran : read_msg (c ∷ conn) ≡ read_body len conn' (ok head) (ok body) =
      ap (λ l. read_rest (conn', some l)) lens
      ∙ ap (λ n. read_body len conn' n (read_u32 4 len)) h
      ∙ ap (read_body len conn' (ok head)) b in
    let parts : len ++ drop 8 msg ≡ msg = ap (λ l. l ++ drop 8 msg) front ∙ take-drop 8 msg in
    (
      ap (λ (p : Conn × (Bytes × Option ReadError)). p.1) ran ∙ done.0 ∙ ap (λ l. (l, none)) parts,
      ap (λ (p : Conn × (Bytes × Option ReadError)). arriving p.0) ran ∙ done.1,
    )

-- The bytes that EncodeReq makes of a request whose length fields are right and fit are what ReadMsg
-- takes from a connection, in whatever chunks they and the following bytes arrive, if the first chunk
-- has eight bytes; what follows is left there.
pub read_msg-encode_req :
    (r : Request) (msg rest c : Bytes) (conn : Conn)
    → IsSized r
    → encode_req r ≡ ok msg
    → 8 ≤ length c
    → arriving (c ∷ conn) ≡ msg ++ rest
    → IsRead (read_msg (c ∷ conn)) msg rest
read_msg-encode_req r msg rest c conn sized made enough comes =
    let same : layout r ≡ msg = cc (encode_req-layout r sized, made) in
    read_msg-IsRead r.head_length r.body_length msg rest c conn
      (subst (IsFramed r.head_length r.body_length) same (layout-IsFramed r sized)) enough comes
