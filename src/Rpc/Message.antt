-- ===== src/Rpc/Message.antt =====
-- rpc/homework1/message/message.go: the binary encoding of requests and responses.
-- A byte slice, and a Go string, is a list of bytes; a slice taken from the network has no spare
-- capacity, so a bound past its length is a panic. A nil map is `none`; a map is the list of its
-- entries in the order in which `range` hands them out. `err` stands for a Go panic.
pub mod Encode
pub mod Decode
pub mod RoundTrip
pub mod Totality
pub mod Stream
mod Tests
use go_study.Prelude.{
  ℕ, zero, suc, ◌+◌, ◌-◌, ◌*◌, ◌/◌, ◌%◌, ◌^◌, ◌≡◌, Bool, Option, none, some, List, [], ◌∷◌, ◌++◌,
  leb, ltb, ◌==◌, if◌then◌else◌, Result, ok, err, ◌>>=◌, length, take, drop, replicate, get_elem?,
  Bytes, index_byte, insert, ◌&&◌,
}

abbrev pub splitter : ℕ
splitter = 10

abbrev pub pair_splitter : ℕ
pair_splitter = 13

abbrev pub u32_mod : ℕ
u32_mod = 2 ^ 32

-- The panics of the codec: an index or a slice bound out of range.
pub data Panic : Type 0 where
  out_of_range : Panic
  -- No Go value: the loop over the metadata ran out of fuel.
  stuck : Panic

abbrev pub Meta : Type 0
Meta = Option (List (Bytes × Bytes))

pub record Request : Type 0 where
  pub head_length : ℕ
  pub body_length : ℕ
  pub message_id : ℕ
  pub version : ℕ
  pub compressor : ℕ
  pub serializer : ℕ
  pub service_name : Bytes
  pub method_name : Bytes
  pub meta : Meta
  pub payload : Bytes

pub record Response : Type 0 where
  pub head_length : ℕ
  pub body_length : ℕ
  pub message_id : ℕ
  pub version : ℕ
  pub compressor : ℕ
  pub serializer : ℕ
  pub error : Bytes
  pub payload : Bytes

-- The slice `bs`, split where the slice `cur` of it begins.
pub record Buffer : Type 0 where
  pub written : Bytes
  pub cur : Bytes

-- `copy(dst, src)`: as many bytes as both hold.
copy : Bytes → Bytes → Bytes
copy [] src = []
copy (d ∷ dst) [] = d ∷ dst
copy (d ∷ dst) (s ∷ src) = s ∷ copy dst src

-- `dst[i] = v`
put_at : Bytes → ℕ → ℕ → Result Panic Bytes
put_at [] i v = err out_of_range
put_at (d ∷ dst) zero v = ok (v ∷ dst)
put_at (d ∷ dst) (suc i) v = do ok (d ∷ (← put_at dst i v))

-- The big-endian bytes of a uint32.
abbrev pub big_endian : ℕ → Bytes
big_endian v = (v / 2 ^ 24 % 256) ∷ (v / 2 ^ 16 % 256) ∷ (v / 2 ^ 8 % 256) ∷ (v % 256) ∷ []

pub copy_cur : Bytes → Buffer → Result Panic Buffer
unfolding copy
copy_cur src b = ok (record b { cur = copy b.cur src })

pub put_cur : ℕ → ℕ → Buffer → Result Panic Buffer
unfolding put_at
put_cur i v b = do ok (record b { cur = (← put_at b.cur i v) })

-- `cur = cur[n:]`
pub advance : ℕ → Buffer → Result Panic Buffer
advance n b =
    if leb n (length b.cur)
    then ok (record { written = b.written ++ take n b.cur; cur = drop n b.cur })
    else err out_of_range

-- `binary.BigEndian.PutUint32(cur[i:i+4], v)`
put_u32 : ℕ → ℕ → Buffer → Result Panic Buffer
unfolding copy
put_u32 i v b =
    if leb (i + 4) (length b.cur)
    then ok (record b { cur = take i b.cur ++ copy (drop i b.cur) (big_endian v) })
    else err out_of_range

-- The three numbers, and the three bytes after them.
pub put_prefix : (head body id version compressor serializer : ℕ) → Buffer → Result Panic Buffer
unfolding put_u32 put_cur advance
put_prefix head body id version compressor serializer b = do
  b ← put_u32 0 head b
  b ← put_u32 4 body b
  b ← put_u32 8 id b
  b ← advance 12 b
  b ← put_cur 0 version b
  b ← put_cur 1 compressor b
  b ← put_cur 2 serializer b
  advance 3 b

-- `copy(cur, s)`, the separator behind it, and the step past both.
pub put_field : Bytes → ℕ → Buffer → Result Panic Buffer
unfolding copy_cur put_cur advance
put_field s sep b = do b ← copy_cur s b; b ← put_cur (length s) sep b; advance (length s + 1) b

abbrev pub entries : Meta → List (Bytes × Bytes)
entries none = []
entries (some m) = m

pub put_meta : List (Bytes × Bytes) → Buffer → Result Panic Buffer
unfolding put_field
put_meta [] b = ok b
put_meta ((key, value) ∷ m) b = do
  b ← put_field key pair_splitter b
  b ← put_field value splitter b
  put_meta m b

-- `make([]byte, head+body)`, the sum being a uint32.
abbrev make_buffer : ℕ → ℕ → Buffer
make_buffer head body = record { written = []; cur = replicate ((head + body) % u32_mod) 0 }

pub encode_req : Request → Result Panic Bytes
unfolding put_prefix put_field put_meta copy_cur
encode_req req = do
  let b = make_buffer req.head_length req.body_length
  b ←
      put_prefix req.head_length req.body_length req.message_id req.version req.compressor
        req.serializer b
  b ← put_field req.service_name splitter b
  b ← put_field req.method_name splitter b
  b ← put_meta (entries req.meta) b
  b ← copy_cur req.payload b
  ok (b.written ++ b.cur)

-- `CalHeadLength`; the result is converted to a uint32.
meta_length : List (Bytes × Bytes) → ℕ → ℕ
meta_length [] res = res
meta_length ((key, value) ∷ m) res = meta_length m (res + length key + 1 + length value + 1)

unfoldable pub cal_head_length : Request → Request
unfolding meta_length
cal_head_length r =
    let res = 15 + length r.service_name + 1 + length r.method_name + 1 in
    record r { head_length = meta_length (entries r.meta) res % u32_mod }

unfoldable pub set_head_length : Response → Response
set_head_length r = record r { head_length = (15 + length r.error) % u32_mod }

pub encode_resp : Response → Result Panic Bytes
unfolding put_prefix copy_cur advance
encode_resp resp = do
  let b = make_buffer resp.head_length resp.body_length
  b ←
      put_prefix resp.head_length resp.body_length resp.message_id resp.version resp.compressor
        resp.serializer b
  b ← copy_cur resp.error b
  b ← advance (length resp.error) b
  b ← copy_cur resp.payload b
  ok (b.written ++ b.cur)

-- `data[i]`
get_at : ℕ → Bytes → Result Panic ℕ
get_at i [] = err out_of_range
get_at zero (b ∷ bs) = ok b
get_at (suc i) (b ∷ bs) = get_at i bs

-- `data[lo:hi]`
pub slice : ℕ → ℕ → Bytes → Result Panic Bytes
slice lo hi bs =
    if leb lo hi && leb hi (length bs) then ok (take (hi - lo) (drop lo bs)) else err out_of_range

-- `binary.BigEndian.Uint32(data[i:i+4])`
pub read_u32 : ℕ → Bytes → Result Panic ℕ
unfolding get_at
read_u32 i bs = do
  b0 ← get_at i bs
  b1 ← get_at (i + 1) bs
  b2 ← get_at (i + 2) bs
  b3 ← get_at (i + 3) bs
  ok (b3 + b2 * 2 ^ 8 + b1 * 2 ^ 16 + b0 * 2 ^ 24)

-- `index := bytes.IndexByte(head, sep)`, then `head[:index]` and `head[index+1:]`.
pub cut : ℕ → Bytes → Result Panic (Bytes × Bytes)
unfolding slice
cut sep head = elim (index_byte head sep) [
  | none ↦ err out_of_range
  | some index ↦ do
    before ← slice 0 index head
    after ← slice (index + 1) (length head) head
    ok (before, after)
]

-- The loop over the metadata; each round takes a byte at least.
pub decode_meta : ℕ → Bytes → List (Bytes × Bytes) → Result Panic (List (Bytes × Bytes))
decode_meta zero head m = elim (index_byte head splitter) [ none ↦ ok m | some _ ↦ err stuck ]
decode_meta (suc fuel) head m = elim (index_byte head splitter) [
  | none ↦ ok m
  | some _ ↦ do
    (pair, rest) ← cut splitter head
    (key, value) ← cut pair_splitter pair
    decode_meta fuel rest (insert key value m)
]

decode_rest : Bytes → Result Panic Meta
unfolding decode_meta cut
decode_rest [] = ok none
decode_rest (b ∷ bs) = do ok (some (← decode_meta (length (b ∷ bs)) (b ∷ bs) []))

pub decode_req : Bytes → Result Panic Request
decode_req bs = do
  head_length ← read_u32 0 bs
  body_length ← read_u32 4 bs
  message_id ← read_u32 8 bs
  version ← get_at 12 bs
  compressor ← get_at 13 bs
  serializer ← get_at 14 bs
  head ← slice 15 head_length bs
  (service_name, head) ← cut splitter head
  (method_name, head) ← cut splitter head
  meta ← decode_rest head
  payload ← slice head_length (length bs) bs
  ok (record {
    head_length = head_length;
    body_length = body_length;
    message_id = message_id;
    version = version;
    compressor = compressor;
    serializer = serializer;
    service_name = service_name;
    method_name = method_name;
    meta = meta;
    payload = payload;
  })

pub decode_resp : Bytes → Result Panic Response
decode_resp bs = do
  head_length ← read_u32 0 bs
  body_length ← read_u32 4 bs
  message_id ← read_u32 8 bs
  version ← get_at 12 bs
  compressor ← get_at 13 bs
  serializer ← get_at 14 bs
  error ← slice 15 head_length bs
  payload ← slice head_length (length bs) bs
  ok (record {
    head_length = head_length;
    body_length = body_length;
    message_id = message_id;
    version = version;
    compressor = compressor;
    serializer = serializer;
    error = error;
    payload = payload;
  })
