-- ===== src/Rpc/Server.antt =====
-- rpc/homework1/server.go, with the interfaces of compression and serialization.
-- The services are parameters, as what reflection finds in them: the methods by their names, each
-- with the type of its argument. `V` stands for Go values, `T` for types, `E` for the errors of
-- foreign code, `N` for points in time, `W` for all that the services and the connection change.
pub mod Conn
pub mod Ends
use go_study.Prelude.{
  ℕ, zero, suc, ◌+◌, ◌%◌, Bool, true, false, Option, none, some, List, [], ◌∷◌, ◌==◌, if◌then◌else◌,
  Result, ok, err, ◌>>=◌, length, replicate, get_elem?, Bytes, bytes, beq, lookup, insert,
}
use go_study.Rpc.Message.{
  u32_mod, Panic, Meta, Request, Response, entries, set_head_length, encode_resp, decode_req,
}
use go_study.Rpc.Message.Stream.{ReadError}

-- The interfaces Serializer and Compressor. Decode takes the type of the value that it fills.
pub record Serializer (V T E : Type 0) : Type 0 where
  pub code : ℕ
  pub encode : V → Result E Bytes
  pub decode : T → Bytes → Result E V

pub record Compressor (E : Type 0) : Type 0 where
  pub code : ℕ
  pub compress : Bytes → Result E Bytes
  pub decompress : Bytes → Result E Bytes

-- compression/uncompressed
abbrev pub uncompressed : {E : Type 0} → Compressor E
uncompressed = record { code = 0; compress = λ bs. ok bs; decompress = λ bs. ok bs }

pub data Error (E : Type 0) : Type 0 where
  service_not_found unsupported_serializer unsupported_compressor not_all_written done : Error E
  foreign : E → Error E
  read_error : ReadError → Error E

-- Why a step stops: an error, a panic, or a wait that never ends.
pub data Stop (E : Type 0) : Type 0 where
  failed : Error E → Stop E
  panicked blocked : Stop E

-- A context of the server: a deadline, and the values.
pub record Ctx (N : Type 0) : Type 0 where
  pub deadline : Option N
  pub values : List (Bytes × Bytes)

pub record Method (V T E N W : Type 0) : Type 0 where
  pub in_type : T
  pub run : Ctx N → V → W → W × (V × Option E)

pub record Server (V T E N W : Type 0) : Type 0 where
  pub services : List (Bytes × List (Bytes × Method V T E N W))
  pub serializers : List (Option (Serializer V T E))
  pub compressors : List (Option (Compressor E))

-- `slots[i] = a`; an index out of range is a panic.
unfoldable pub set_at : {A : Type 0} → ℕ → A → List A → Option (List A)
set_at i a [] = none
set_at zero a (x ∷ xs) = some (a ∷ xs)
set_at (suc i) a (x ∷ xs) = elim (set_at i a xs) [ none ↦ none | some ys ↦ some (x ∷ ys) ]

-- `slots[i]`, of an interface that may be nil: an index out of range is a panic.
unfoldable pub pick : {A E : Type 0} → Error E → Option (Option A) → Result (Stop E) A
pick e none = err panicked
pick e (some none) = err (failed e)
pick e (some (some a)) = ok a

-- What is nil is called: a panic.
abbrev pub must : {A E : Type 0} → Option A → Result (Stop E) A
must none = err panicked
must (some a) = ok a

abbrev pub checked : {A E : Type 0} → Result E A → Result (Stop E) A
checked (ok a) = ok a
checked (err e) = err (failed (foreign e))

-- What `invoke` answers.
module _ {V T E W : Type 0} where
  abbrev pub encoded : Serializer V T E → W × (V × Option E) → W × Result (Stop E) Bytes
  encoded s (w, (v, some e)) = (w, err (failed (foreign e)))
  encoded s (w, (v, none)) = (w, checked (s.encode v))

module _ {V T E N W : Type 0} where
  unfoldable pub register_serializer :
      Serializer V T E → Server V T E N W → Option (Server V T E N W)
  unfolding set_at
  register_serializer s srv = elim (set_at s.code (some s) srv.serializers) [
    | none ↦ none
    | some slots ↦ some (record srv { serializers = slots })
  ]

  unfoldable pub register_compressor : Compressor E → Server V T E N W → Option (Server V T E N W)
  unfolding set_at
  register_compressor c srv = elim (set_at c.code (some c) srv.compressors) [
    | none ↦ none
    | some slots ↦ some (record srv { compressors = slots })
  ]

  -- `Register`
  unfoldable pub register :
      Bytes → List (Bytes × Method V T E N W) → Server V T E N W → Server V T E N W
  unfolding insert
  register name methods srv = record srv { services = insert name methods srv.services }

  -- `NewServer`, with the serializer of JSON.
  unfoldable pub new_server : Serializer V T E → Option (Server V T E N W)
  unfolding register_serializer register_compressor
  new_server json =
      let empty : Server V T E N W = record {
        services = [];
        serializers = replicate 32 none;
        compressors = replicate 32 none;
      } in
      elim (register_serializer json empty) [
        | none ↦ none
        | some srv ↦ register_compressor uncompressed srv
      ]

  -- What `invoke` does up to the call: the serializer, the method and its argument.
  unfoldable pub prepare :
      Server V T E N W
      → List (Bytes × Method V T E N W)
      → Request
      → Result (Stop E) (Serializer V T E × (Method V T E N W × V))
  unfolding pick lookup
  prepare srv methods req = do
    s ← pick unsupported_serializer (get_elem? srv.serializers req.serializer)
    c ← pick unsupported_compressor (get_elem? srv.compressors req.compressor)
    m ← must (lookup req.method_name methods)
    bs ← checked (c.decompress req.payload)
    v ← checked (s.decode m.in_type bs)
    ok (s, (m, v))

  -- `reflectionStub.invoke`
  unfoldable pub invoke :
      Server V T E N W
      → List (Bytes × Method V T E N W)
      → Ctx N
      → Request
      → W
      → W × Result (Stop E) Bytes
  unfolding prepare
  invoke srv methods ctx req w = elim (prepare srv methods req) [
    | err p ↦ (w, err p)
    | ok (s, (m, v)) ↦ encoded s (m.run ctx v w)
  ]
