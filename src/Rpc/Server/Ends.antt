-- ===== src/Rpc/Server/Ends.antt =====
-- rpc/homework1/server.go: the loop over a connection ends when the connection does.
use go_study.Prelude.{
  ℕ, zero, suc, ◌+◌, ◌-◌, ◌%◌, ◌≤◌, ◌<◌, ◌≡◌, refl, ap, ◌∙◌, inl, inr, ◌⊎◌, none, some, [], ◌∷◌,
  arith, leb, ◌==◌, ==_iff, Result, ok, err, length, take, drop, Bytes, Bool-cases, length-append,
  length-drop, length-take, Option-cases,
}
use go_study.Rpc.Message.{read_u32, u32_mod, Panic}
use go_study.Rpc.Message.Stream.{Conn, put_back, read_full, read_body, read_msg}
use go_study.Rpc.Message.Stream.Arriving.{arriving, put_back-arriving}
use go_study.Rpc.Server.{Server, Stop, failed, read_error}
use go_study.Rpc.Server.Conn.{Calls, Next, goes_on, stops, handle_msg, handle_conn}

abbrev pending : Conn → ℕ
pending conn = length (arriving conn)

pending-put_back :
    (bs : Bytes) (conn : Conn) → pending (put_back bs conn) ≡ length bs + pending conn
pending-put_back bs conn = ap length (put_back-arriving bs conn) ∙ length-append bs (arriving conn)

read_full_le : (n : ℕ) (conn : Conn) → pending (read_full n conn).0 ≤ pending conn
unfolding read_full
read_full_le n [] = omega arith
read_full_le n (c ∷ conn) = elim (Bool-cases (leb n (length c))) [
  | inl here ↦
      rw (here, read_full)
        (omega (
          arith,
          pending-put_back (drop n c) conn,
          length-drop n c,
          length-append c (arriving conn),
        ))
  | inr further ↦
      rw (further, read_full)
        (omega (arith, read_full_le (n - length c) conn, length-append c (arriving conn)))
]

read_body_le :
    (len : Bytes) (conn : Conn) (head body : Result Panic ℕ)
    → pending (read_body len conn head body).0 ≤ pending conn
unfolding read_body
read_body_le len conn (ok head) (ok body) = elim (Bool-cases (leb 8 ((head + body) % u32_mod))) [
  | inl long ↦ rw (long, read_body) (read_full_le ((head + body) % u32_mod - 8) conn)
  | inr short ↦ rw (short, read_body) (omega arith)
]
read_body_le len conn (ok head) (err p) = omega arith
read_body_le len conn (err p) body = omega arith

-- A message that was read took its length at least.
read_msg_lt : (conn : Conn) → (read_msg conn).1.1 ≡ none → pending (read_msg conn).0 < pending conn
unfolding read_msg
read_msg_lt [] e = absurd (ground (arith, e))
read_msg_lt (c ∷ conn) e = elim (Bool-cases (length (take 8 c) == 8)) [
  | inl whole ↦
      let eight : length (take 8 c) ≡ 8 = (==_iff (length (take 8 c)) 8).0 whole in
      rw (whole, read_msg)
        (omega (
          arith,
          eight,
          length-take 8 c,
          read_body_le (take 8 c) (put_back (drop 8 c) conn) (read_u32 0 (take 8 c))
              (read_u32 4 (take 8 c)),
          pending-put_back (drop 8 c) conn,
          length-drop 8 c,
          length-append c (arriving conn),
        ))
  | inr short ↦ absurd (ground (arith, short, read_msg))
]

Next-cases : {E : Type 0} (n : Next E) → (n ≡ goes_on) ⊎ ((s : Stop E) × (n ≡ stops s))
Next-cases goes_on = inl refl
Next-cases (stops s) = inr (s, refl)

module _ {V T E N W : Type 0} (calls : Calls E N W) (srv : Server V T E N W) where
  -- With more fuel than there are bytes to come, the loop over a connection stops.
  pub handle_conn-ends :
      (fuel : ℕ) (conn : Conn) (w : W)
      → length (arriving conn) < fuel
      → (s : Stop E) × ((handle_conn calls fuel srv conn w).1 ≡ some s)
  unfolding handle_conn
  handle_conn-ends zero conn w h = absurd (omega arith)
  handle_conn-ends (suc fuel) conn w h = elim (Option-cases (read_msg conn).1.1) [
    | inr (x, e) ↦ (failed (read_error x), rw (e, handle_conn) refl)
    | inl got ↦ elim (Next-cases (handle_msg calls srv (read_msg conn).1.0 w).1) [
      | inr (s, e) ↦ (s, rw (got, handle_conn) (rw e refl))
      | inl e ↦
          let (s, rest) =
            handle_conn-ends fuel (read_msg conn).0 (handle_msg calls srv (read_msg conn).1.0 w).0
              (omega (arith, read_msg_lt conn got)) in
          (s, rw (got, handle_conn) (rw e rest))
    ]
  ]
