-- ===== src/Rpc/Message/Decode.antt =====
-- What the decoders of message.go read back from what the encoders wrote.
use go_study.Prelude.{
  ℕ, zero, suc, ◌+◌, ◌-◌, ◌≤◌, ◌≡◌, ◌≢◌, refl, sym, ap, ◌∙◌, List, [], ◌∷◌, ◌++◌, append-nil,
  append_assoc, arith, le→leb, ok, length, All, some, length-append, drop-append, take-append,
  Bytes, Lacks, IsFresh, insert, insert-fresh, index_byte, index_byte-append,
}
use go_study.Rpc.Message.{splitter, pair_splitter, slice, cut, decode_meta}
use go_study.Rpc.Message.Encode.{length-snoc, meta_bytes}

pub slice-append_mid : (a b c : Bytes) → slice (length a) (length (a ++ b)) (a ++ (b ++ c)) ≡ ok b
unfolding slice
slice-append_mid a b c =
    rw (le→leb (length a) (length (a ++ b)) (omega (arith, length-append a b))) (
      rw
        (le→leb (length (a ++ b)) (length (a ++ (b ++ c)))
          (omega (arith, length-append a b, length-append a (b ++ c), length-append b c)))
        (rw (drop-append a (b ++ c), len) (rw (take-append b c) refl)))
  where
    len : length (a ++ b) - length a ≡ length b
    len = omega (arith, length-append a b)

pub slice-append_end : (a b : Bytes) → slice (length a) (length (a ++ b)) (a ++ b) ≡ ok b
slice-append_end a b = rw (append-nil b) at (slice-append_mid a b [])

index_byte-snoc :
    (sep : ℕ) (s rest : Bytes)
    → Lacks sep s
    → index_byte ((s ++ (sep ∷ [])) ++ rest) sep ≡ some (length s)
index_byte-snoc sep s rest clean = rw append_assoc (index_byte-append s rest sep clean)

pub cut-append :
    (sep : ℕ) (s rest : Bytes) → Lacks sep s → cut sep ((s ++ (sep ∷ [])) ++ rest) ≡ ok (s, rest)
unfolding cut
cut-append sep s rest clean =
    let before : slice 0 (length s) ((s ++ (sep ∷ [])) ++ rest) ≡ ok s =
      rw append_assoc (slice-append_mid [] s (sep ∷ rest)) in
    let after : slice (length s + 1) (length ((s ++ (sep ∷ [])) ++ rest))
          ((s ++ (sep ∷ [])) ++ rest)
        ≡ ok rest =
      rw (length-snoc s sep) at (slice-append_end (s ++ (sep ∷ [])) rest) in
    rw (index_byte-snoc sep s rest clean, cut) (rw before (rw after refl))

Lacks-append : (c : ℕ) (a b : Bytes) → Lacks c a → Lacks c b → Lacks c (a ++ b)
Lacks-append c [] b h k = k
Lacks-append c (x ∷ a) b (h, hs) k = (h, Lacks-append c a b hs k)

-- The texts that the format can carry: the separators do not occur where they would be misread.
abbrev pub IsCleanEntry : Bytes × Bytes → Type 0
IsCleanEntry (key, value) = Lacks splitter key × Lacks pair_splitter key × Lacks splitter value

abbrev pub HasDistinctKeys : List (Bytes × Bytes) → Type 0
HasDistinctKeys [] = Unit
HasDistinctKeys ((key, value) ∷ m) = IsFresh key m × HasDistinctKeys m

-- No key of the second map is a key of the first.
abbrev Apart : List (Bytes × Bytes) → List (Bytes × Bytes) → Type 0
Apart done m = All (λ e. IsFresh e.0 done) m

IsFresh-snoc :
    (k j v : Bytes) (m : List (Bytes × Bytes))
    → IsFresh k m
    → j ≢ k
    → IsFresh k (m ++ ((j, v) ∷ []))
IsFresh-snoc k j v [] h ne = (ne, tt)
IsFresh-snoc k j v (e ∷ m) (h, hs) ne = (h, IsFresh-snoc k j v m hs ne)

Apart-snoc :
    (done m : List (Bytes × Bytes)) (k v : Bytes)
    → Apart done m
    → IsFresh k m
    → Apart (done ++ ((k, v) ∷ [])) m
Apart-snoc done [] k v h fresh = tt
Apart-snoc done ((j, w) ∷ m) k v (h, hs) (ne, fresh) =
    (IsFresh-snoc j k v done h (λ e. ne (sym e)), Apart-snoc done m k v hs fresh)

-- One round of the loop, on the bytes of one entry.
decode_meta-cons :
    (fuel : ℕ) (key value rest : Bytes) (done : List (Bytes × Bytes))
    → IsCleanEntry (key, value)
    → decode_meta
        (suc fuel)
        ((key ++ (pair_splitter ∷ [])) ++ ((value ++ (splitter ∷ [])) ++ rest))
        done
      ≡ decode_meta fuel rest (insert key value done)
unfolding decode_meta
decode_meta-cons fuel key value rest done (k10, k13, v10) = rw whole (
    rw (index_byte-snoc splitter pair rest pair10, decode_meta)
      (rw (cut-append splitter pair rest pair10)
        (rw (cut-append pair_splitter key value k13) refl)))
  where
    pair : Bytes
    pair = (key ++ (pair_splitter ∷ [])) ++ value

    pair10 : Lacks splitter pair
    pair10 =
        Lacks-append splitter (key ++ (pair_splitter ∷ [])) value
          (Lacks-append splitter key (pair_splitter ∷ []) k10 (omega arith, tt)) v10

    whole :
        (key ++ (pair_splitter ∷ [])) ++ ((value ++ (splitter ∷ [])) ++ rest)
        ≡ (pair ++ (splitter ∷ [])) ++ rest
    whole = simp append_assoc

decode_meta-nil :
    (fuel : ℕ) (done : List (Bytes × Bytes)) → decode_meta fuel [] done ≡ ok (done ++ [])
unfolding decode_meta index_byte
decode_meta-nil zero done = rw (append-nil done) refl
decode_meta-nil (suc fuel) done = rw (append-nil done) refl

pub decode_meta-meta_bytes :
    (fuel : ℕ) (m done : List (Bytes × Bytes))
    → length m ≤ fuel
    → All IsCleanEntry m
    → HasDistinctKeys m
    → Apart done m
    → decode_meta fuel (meta_bytes m) done ≡ ok (done ++ m)
decode_meta-meta_bytes zero [] done h c d a = decode_meta-nil zero done
decode_meta-meta_bytes (suc fuel) [] done h c d a = decode_meta-nil (suc fuel) done
decode_meta-meta_bytes zero (e ∷ m) done h c d a = absurd (omega arith)
decode_meta-meta_bytes (suc fuel) ((key, value) ∷ m) done h (c, cs) (fresh, d) (apart, aparts) =
    decode_meta-cons fuel key value (meta_bytes m) done c
    ∙ rw (insert-fresh key value done apart) (
        decode_meta-meta_bytes fuel m (done ++ ((key, value) ∷ [])) (omega arith) cs d
          (Apart-snoc done m key value aparts fresh)
        ∙ ap ok (append_assoc done ((key, value) ∷ []) m))
