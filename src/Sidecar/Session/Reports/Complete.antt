-- ===== src/Sidecar/Session/Reports/Complete.antt =====
-- The chunks of a report hold all of it, and the loop ends.
use mathlib.Core.List.{append_assoc, append-nil}
use your_connector.Common.{
  ℕ, zero, suc, ◌<◌, ◌≤◌, ◌≡◌, refl, sym, subst, ◌∙◌, ap, true, false, Option, none, some, List, [],
  ◌∷◌, ◌++◌, ok, err, length, ltb, is_some, arith, Bool-cases, inl, inr,
}
use your_connector.Sidecar.Session.Reports.Chunks.{
  Utf8, valid, invalid, take, drop, Sending, is_open, Outcome, if_valid, flushed, split_carry,
  flush, on_read, if_text, on_end, then_turns, Turn, cancels, passes, read_failed, reads, ends,
  send_chunks,
}
use your_connector.Sidecar.Session.Reports.Bytes.{
  length-drop, take-drop, bytes_of, all_bytes, emit_chunk-bytes, emit_filled-bytes, HasBytes,
  bytes_read, Completes, has_end,
}

module _ (from_utf8 : List ℕ → Utf8) where
  if_valid-HasBytes :
      (u : Utf8) (s : Sending) (rest : Option Outcome) (bytes : List ℕ)
      → all_bytes s ≡ bytes
      → HasBytes bytes rest
      → HasBytes bytes (if_valid from_utf8 u s rest)
  if_valid-HasBytes valid s rest bytes same has = has
  if_valid-HasBytes (invalid n l) s rest bytes same has = same

  flushed-HasBytes :
      (s : Sending) (rest : ℕ → Option Outcome) (u : Utf8) (bytes : List ℕ)
      → all_bytes s ≡ bytes
      → ((n : ℕ) → HasBytes bytes (rest n))
      → HasBytes bytes (flushed from_utf8 s rest u)
  flushed-HasBytes s rest valid bytes same has = emit_filled-bytes s ∙ same
  flushed-HasBytes s rest (invalid n l) bytes same has = elim (Bool-cases (ltb 0 n)) [
    | inl more ↦
        rw more (if_valid-HasBytes (from_utf8 (take n s.utf8_carry)) s (rest n) bytes same (has n))
    | inr stuck ↦ elim (Bool-cases (is_open l)) [
      | inl unfinished ↦ rw (stuck, unfinished) same
      | inr broken ↦ rw (stuck, broken) same
    ]
  ]

  flush-HasBytes :
      (fuel : ℕ) (s : Sending) (bytes : List ℕ)
      → all_bytes s ≡ bytes
      → HasBytes bytes (flush from_utf8 fuel s)
  unfolding flush
  flush-HasBytes zero s bytes same = tt
  flush-HasBytes (suc fuel) s bytes same =
      flushed-HasBytes s _ (from_utf8 s.utf8_carry) bytes same (λ n.
        flush-HasBytes fuel (split_carry from_utf8 s n) bytes (
          emit_chunk-bytes (take n s.utf8_carry) (drop n s.utf8_carry) s (take-drop n s.utf8_carry)
          ∙ same))

  if_text-Completes :
      (u : Utf8) (s : Sending) → Completes (all_bytes s) (some (if_text from_utf8 u s))
  if_text-Completes valid s = sym (append-nil _) ∙ emit_filled-bytes s
  if_text-Completes (invalid n l) s = ([], append-nil _)

  no_carry : (bytes carry : List ℕ) → ltb 0 (length carry) ≡ false → bytes ≡ bytes ++ carry
  no_carry bytes [] h = sym (append-nil bytes)
  no_carry bytes (b ∷ carry) h = absurd (ground (arith, h))

  on_end-Completes : (s : Sending) → Completes (all_bytes s) (some (on_end from_utf8 s))
  unfolding on_end
  on_end-Completes s = elim (Bool-cases (ltb 0 (length s.utf8_carry))) [
    | inl left ↦ rw (on_end, left) (if_text-Completes (from_utf8 s.utf8_carry) s)
    | inr nothing ↦ rw (on_end, nothing) (no_carry (bytes_of s.chunks) s.utf8_carry nothing)
  ]

  on_read-HasBytes :
      (bytes : List ℕ) (s : Sending) → HasBytes (all_bytes s ++ bytes) (on_read from_utf8 bytes s)
  unfolding on_read
  on_read-HasBytes bytes s =
      flush-HasBytes _ _ _ (sym (append_assoc (bytes_of s.chunks) s.utf8_carry bytes))

  then_turns-Completes :
      (next : Sending → Option Outcome) (o : Option Outcome) (now later : List ℕ)
      → HasBytes now o
      → ((after : Sending) → Completes (all_bytes after ++ later) (next after))
      → Completes (now ++ later) (then_turns next o)
  then_turns-Completes next none now later has go_on = tt
  then_turns-Completes next (some (ok u, after)) now later has go_on =
      subst (λ bytes. Completes (bytes ++ later) (next after)) has (go_on after)
  then_turns-Completes next (some (err e, after)) now later has go_on =
      (later, ap (λ bytes. bytes ++ later) has)

  send_chunks-Completes :
      (turns : List Turn) (s : Sending)
      → Completes (all_bytes s ++ bytes_read turns) (send_chunks from_utf8 turns s)
  unfolding send_chunks
  send_chunks-Completes [] s = tt
  send_chunks-Completes (cancels ∷ turns) s = ([], refl)
  send_chunks-Completes (passes ∷ turns) s = send_chunks-Completes turns s
  send_chunks-Completes (read_failed e ∷ turns) s = ([], refl)
  send_chunks-Completes (ends ∷ turns) s =
      subst (λ bytes. Completes bytes (some (on_end from_utf8 s))) (sym (append-nil (all_bytes s)))
        (on_end-Completes s)
  send_chunks-Completes (reads b bytes ∷ turns) s =
      subst (λ all. Completes all (send_chunks from_utf8 (reads b bytes ∷ turns) s))
        (append_assoc (all_bytes s) (b ∷ bytes) (bytes_read turns))
        (then_turns-Completes (send_chunks from_utf8 turns) (on_read from_utf8 (b ∷ bytes) s)
          (all_bytes s ++ b ∷ bytes) (bytes_read turns) (on_read-HasBytes (b ∷ bytes) s)
          (send_chunks-Completes turns))

  if_valid-returns :
      (u : Utf8) (s : Sending) (rest : Option Outcome)
      → is_some rest ≡ true
      → is_some (if_valid from_utf8 u s rest) ≡ true
  if_valid-returns valid s rest returns = returns
  if_valid-returns (invalid n l) s rest returns = refl

  flushed-returns :
      (s : Sending) (rest : ℕ → Option Outcome) (u : Utf8)
      → ((n : ℕ) (l : Option ℕ) → u ≡ invalid n l → ltb 0 n ≡ true → is_some (rest n) ≡ true)
      → is_some (flushed from_utf8 s rest u) ≡ true
  flushed-returns s rest valid go_on = refl
  flushed-returns s rest (invalid n l) go_on = elim (Bool-cases (ltb 0 n)) [
    | inl more ↦
        rw more
          (if_valid-returns (from_utf8 (take n s.utf8_carry)) s (rest n) (go_on n l refl more))
    | inr stuck ↦ elim (Bool-cases (is_open l)) [
      | inl unfinished ↦ rw (stuck, unfinished) refl
      | inr broken ↦ rw (stuck, broken) refl
    ]
  ]

  -- Where `from_utf8` finds an error within what it reads, the inner loop does not run out of fuel.
  flush-returns :
      ((bytes : List ℕ) (n : ℕ) (l : Option ℕ) → from_utf8 bytes ≡ invalid n l → n ≤ length bytes)
      → (fuel : ℕ) (s : Sending) → length s.utf8_carry < fuel
      → is_some (flush from_utf8 fuel s) ≡ true
  unfolding flush
  flush-returns bounded zero s enough = absurd (omega (arith, enough))
  flush-returns bounded (suc fuel) s enough =
      flushed-returns s (λ n. flush from_utf8 fuel (split_carry from_utf8 s n))
        (from_utf8 s.utf8_carry)
        (λ n l e more.
          flush-returns bounded fuel (split_carry from_utf8 s n)
            (ground (arith, more, enough, bounded s.utf8_carry n l e, length-drop n s.utf8_carry)))

  then_turns-returns :
      (next : Sending → Option Outcome) (o : Option Outcome)
      → is_some o ≡ true
      → ((after : Sending) → is_some (next after) ≡ true)
      → is_some (then_turns next o) ≡ true
  then_turns-returns next none returns go_on = cc
  then_turns-returns next (some (ok u, after)) returns go_on = go_on after
  then_turns-returns next (some (err e, after)) returns go_on = refl

  send_chunks-returns :
      ((bytes : List ℕ) (n : ℕ) (l : Option ℕ) → from_utf8 bytes ≡ invalid n l → n ≤ length bytes)
      → (turns : List Turn) (s : Sending) → has_end turns ≡ true
      → is_some (send_chunks from_utf8 turns s) ≡ true
  unfolding send_chunks on_read
  send_chunks-returns bounded [] s e = cc
  send_chunks-returns bounded (cancels ∷ turns) s e = refl
  send_chunks-returns bounded (passes ∷ turns) s e = send_chunks-returns bounded turns s e
  send_chunks-returns bounded (read_failed r ∷ turns) s e = refl
  send_chunks-returns bounded (ends ∷ turns) s e = refl
  send_chunks-returns bounded (reads b bytes ∷ turns) s e =
      then_turns-returns (send_chunks from_utf8 turns) (on_read from_utf8 (b ∷ bytes) s)
        (flush-returns bounded _ _ (omega arith))
        (λ after. send_chunks-returns bounded turns after e)

-- before the first read
abbrev pub nothing_sent : Sending
nothing_sent = record { utf8_carry = []; bytes_sent = 0; chunk_index = 0; chunks = [] }

completes :
    (bytes : List ℕ) (o : Option Outcome)
    → is_some o ≡ true
    → Completes bytes o
    → (outcome : Outcome) × (o ≡ some outcome) × Completes bytes (some outcome)
completes bytes none returns complete = cc
completes bytes (some outcome) returns complete = (outcome, refl, complete)

-- Let `from_utf8` find its errors within the text it is given. Then the sending of a report ends when
-- the file does, when reading fails or when the request is cancelled. If it succeeds, its chunks, put
-- together, are the bytes that were read; if it fails, what is in chunks or carried over is a first
-- part of them.
pub report_sent :
    (from_utf8 : List ℕ → Utf8)
    → ((bytes : List ℕ) (n : ℕ) (l : Option ℕ) → from_utf8 bytes ≡ invalid n l → n ≤ length bytes)
    → (turns : List Turn) → has_end turns ≡ true
    → (outcome : Outcome) × (send_chunks from_utf8 turns nothing_sent ≡ some outcome)
      × Completes (bytes_read turns) (some outcome)
report_sent from_utf8 bounded turns e =
    completes (bytes_read turns) _ (send_chunks-returns from_utf8 bounded turns nothing_sent e)
      (send_chunks-Completes from_utf8 turns nothing_sent)
