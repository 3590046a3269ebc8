-- ===== src/Sidecar/Session/Reports/Bytes.antt =====
-- The bytes of chunks.
use mathlib.Core.List.{append_assoc, append-nil}
use your_connector.Common.{
  ℕ, zero, suc, ◌-◌, ◌≡◌, refl, sym, ◌∙◌, ap, Bool, true, false, Option, none, some, List, [], ◌∷◌,
  ◌++◌, ok, err, length, arith,
}
use your_connector.Sidecar.Session.Reports.Chunks.{
  take, drop, Chunk, Sending, emit_chunk, emit_filled, Outcome, Turn, cancels, passes, read_failed,
  reads, ends,
}

pub take-drop : {A : Type 0} (n : ℕ) (xs : List A) → take n xs ++ drop n xs ≡ xs
take-drop zero xs = refl
take-drop (suc n) [] = refl
take-drop (suc n) (x ∷ xs) = ap (λ ys. x ∷ ys) (take-drop n xs)

pub length-drop : {A : Type 0} (n : ℕ) (xs : List A) → length (drop n xs) ≡ length xs - n
length-drop zero xs = ground arith
length-drop (suc n) [] = ground arith
length-drop (suc n) (x ∷ xs) = ground (arith, length-drop n xs)

-- the bytes in the chunks
abbrev pub bytes_of : List Chunk → List ℕ
bytes_of [] = []
bytes_of (c ∷ more) = c.bytes ++ bytes_of more

-- the bytes that were read: in chunks, or carried over
abbrev pub all_bytes : Sending → List ℕ
all_bytes s = bytes_of s.chunks ++ s.utf8_carry

bytes_of-append : (xs : List Chunk) (c : Chunk) → bytes_of (xs ++ c ∷ []) ≡ bytes_of xs ++ c.bytes
bytes_of-append [] c = append-nil c.bytes
bytes_of-append (x ∷ xs) c =
    ap (λ ys. x.bytes ++ ys) (bytes_of-append xs c)
    ∙ sym (append_assoc x.bytes (bytes_of xs) c.bytes)

-- a part of the carried bytes goes into a chunk
pub emit_chunk-bytes :
    (bytes rest : List ℕ) (s : Sending)
    → bytes ++ rest ≡ s.utf8_carry
    → all_bytes (record (emit_chunk bytes s) { utf8_carry = rest }) ≡ all_bytes s
unfolding emit_chunk
emit_chunk-bytes bytes rest s split =
    ap (λ ys. ys ++ rest) (bytes_of-append s.chunks _)
    ∙ append_assoc (bytes_of s.chunks) bytes rest
    ∙ ap (λ ys. bytes_of s.chunks ++ ys) split

pub emit_filled-bytes :
    (s : Sending)
    → all_bytes (record (emit_filled s.utf8_carry s) { utf8_carry = [] }) ≡ all_bytes s
emit_filled-bytes s = by_carry s.utf8_carry refl
  where
    by_carry :
        (carry : List ℕ)
        → carry ≡ s.utf8_carry
        → all_bytes (record (emit_filled carry s) { utf8_carry = [] }) ≡ all_bytes s
    by_carry [] same = ap (λ ys. bytes_of s.chunks ++ ys) same
    by_carry (b ∷ bytes) same = emit_chunk-bytes (b ∷ bytes) [] s (append-nil (b ∷ bytes) ∙ same)

-- what an outcome leaves, if there is one
abbrev pub HasBytes : List ℕ → Option Outcome → Type 0
HasBytes bytes none = Unit {0}
HasBytes bytes (some (r, after)) = all_bytes after ≡ bytes

-- what `send_chunks` is given to read
abbrev pub bytes_read : List Turn → List ℕ
bytes_read [] = []
bytes_read (cancels ∷ turns) = []
bytes_read (passes ∷ turns) = bytes_read turns
bytes_read (read_failed e ∷ turns) = []
bytes_read (ends ∷ turns) = []
bytes_read (reads b bytes ∷ turns) = b ∷ bytes ++ bytes_read turns

-- with everything that was read sent, if it returned
abbrev pub Completes : List ℕ → Option Outcome → Type 0
Completes bytes none = Unit {0}
Completes bytes (some (ok u, after)) = bytes_of after.chunks ≡ bytes
Completes bytes (some (err e, after)) = (rest : List ℕ) × (all_bytes after ++ rest ≡ bytes)

-- whether one of the turns ends the loop
abbrev pub has_end : List Turn → Bool
has_end [] = false
has_end (cancels ∷ turns) = true
has_end (passes ∷ turns) = has_end turns
has_end (read_failed e ∷ turns) = true
has_end (ends ∷ turns) = true
has_end (reads b bytes ∷ turns) = has_end turns
