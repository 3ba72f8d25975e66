-- ===== src/Rpc/Message/Stream.antt =====
-- rpc/homework1/tcp.go: reading one message from a connection.
-- A connection is the list of the chunks in which its bytes arrive: a Read takes from the first one,
-- and meets io.EOF behind the last.
pub mod Arriving
mod Tests
use go_study.Prelude.{
  ℕ, ◌+◌, ◌-◌, ◌%◌, Bool, true, false, Option, none, some, List, [], ◌∷◌, ◌++◌, leb, ◌==◌,
  if◌then◌else◌, Result, ok, err, length, take, drop, replicate, Bytes,
}
use go_study.Rpc.Message.{u32_mod, Panic, read_u32}

abbrev pub Conn : Type 0
Conn = List Bytes

pub data ReadError : Type 0 where
  eof unexpected_eof no_data_length : ReadError
  -- A panic, recovered.
  recovered : Panic → ReadError

abbrev pub put_back : Bytes → Conn → Conn
put_back [] conn = conn
put_back (b ∷ bs) conn = (b ∷ bs) ∷ conn

-- `conn.Read(bs)`, of so many bytes at most; `none` is an error.
abbrev pub read : ℕ → Conn → Conn × Option Bytes
read n [] = ([], none)
read n (c ∷ conn) = (put_back (drop n c) conn, some (take n c))

-- `io.ReadFull`: the bytes that were read, and whether they are all.
unfoldable pub read_full : ℕ → Conn → Conn × (Bytes × Bool)
read_full n [] = ([], ([], n == 0))
read_full n (c ∷ conn) =
    let (conn', (bs, full)) = read_full (n - length c) conn in
    if leb n (length c)
    then (put_back (drop n c) conn, (take n c, true))
    else (conn', (c ++ bs, full))

-- The buffer: the length in front, what was read behind it, and zeros.
abbrev pub filled : ℕ → Bytes → Conn × (Bytes × Bool) → Conn × (Bytes × Option ReadError)
filled n len (conn, (bs, full)) = (
  conn,
  (
    len ++ (bs ++ replicate (n - length bs) 0),
    if full then none else if length bs == 0 then some eof else some unexpected_eof,
  ),
)

unfoldable pub read_body :
    Bytes → Conn → Result Panic ℕ → Result Panic ℕ → Conn × (Bytes × Option ReadError)
unfolding read_full
read_body len conn (ok head) (ok body) =
    let size = (head + body) % u32_mod in
    if leb 8 size
    then filled (size - 8) len (read_full (size - 8) conn)
    else (conn, (replicate size 0, some (recovered Panic.out_of_range)))
read_body len conn (ok head) (err p) = (conn, ([], some (recovered p)))
read_body len conn (err p) body = (conn, ([], some (recovered p)))

abbrev pub read_rest : Conn × Option Bytes → Conn × (Bytes × Option ReadError)
read_rest (conn, none) = (conn, ([], some eof))
read_rest (conn, some len) =
    if length len == 8
    then read_body len conn (read_u32 0 len) (read_u32 4 len)
    else (conn, ([], some no_data_length))

-- `ReadMsg`
unfoldable pub read_msg : Conn → Conn × (Bytes × Option ReadError)
unfolding read_body read_u32
read_msg conn = read_rest (read 8 conn)
