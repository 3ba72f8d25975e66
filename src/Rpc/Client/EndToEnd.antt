-- ===== src/Rpc/Client/EndToEnd.antt =====
-- rpc/homework1: a client and a server on the two ends of a connection.
use go_study.Prelude.{
  ℕ, ◌≤◌, ◌≡◌, sym, ap, ◌∙◌, Option, none, some, List, [], ◌∷◌, ◌++◌, Result, length, Bytes, arith,
  append-nil,
}
use go_study.Rpc.Message.Stream.{Conn, read_msg}
use go_study.Rpc.Message.Stream.Arriving.{arriving, IsFramed, read_msg-IsRead}
use go_study.Rpc.Server.{Error, Stop, Server}
use go_study.Rpc.Server.Conn.{Calls, handle_conn}
use go_study.Rpc.Client.{Transport}

-- A way to cut what is sent into chunks, the first one of eight bytes at least.
pub record IsSplit (split : Bytes → Conn) : Type 0 where
  pub first : Bytes → Bytes
  pub others : Bytes → Conn
  pub parts : (bs : Bytes) → split bs ≡ first bs ∷ others bs
  pub whole : (bs : Bytes) → arriving (split bs) ≡ bs
  pub enough : (bs : Bytes) → 8 ≤ length bs → 8 ≤ length (first bs)

pub read_msg-split :
    (split : Bytes → Conn) (is_split : IsSplit split) (head body : ℕ) (msg : Bytes)
    → IsFramed head body msg
    → (read_msg (split msg)).1 ≡ (msg, none)
read_msg-split split is_split head body msg framed =
    let e = is_split.parts msg in
    let (read, _) =
      read_msg-IsRead head body msg [] (is_split.first msg) (is_split.others msg) framed
        (is_split.enough msg (omega (arith, framed.size, framed.long)))
        (ap arriving (sym e) ∙ is_split.whole msg ∙ sym (append-nil msg)) in
    ap (λ c. (read_msg c).1) e ∙ read

module _ {E N W : Type 0} (text : Error E → Bytes) (parse_time : Bytes → Result E N) where
  -- The server's end: what it writes, in chunks, is what the client may read.
  abbrev pub server_calls : Calls E N (W × List Bytes)
  server_calls = record {
    text = text;
    parse_time = parse_time;
    write = λ bs s. ((s.0, s.1 ++ (bs ∷ [])), none);
  }

module _ {V T E N W : Type 0} (text : Error E → Bytes) (parse_time : Bytes → Result E N)
    (split : Bytes → Conn) (srv : Server V T E N (W × List Bytes)) where
  abbrev pub answer_of : List Bytes → Option Conn
  answer_of [] = none
  answer_of (msg ∷ out) = some (split msg)

  abbrev pub answered : (W × List Bytes) × Option (Stop E) → W × Option Conn
  answered ((w, out), _) = (w, answer_of out)

  -- The server takes one message, and handles it.
  abbrev pub server_transport : Transport E (W × Option Conn)
  server_transport = record {
    get = λ s. none;
    write = λ bs s. (
      answered (handle_conn (server_calls text parse_time) 1 srv (split bs) (s.0, [])),
      (length bs, none),
    );
    inbox = λ s. s.1;
  }
