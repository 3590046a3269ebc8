-- ===== src/Sidecar/Session/Reports/Chunks.antt =====
-- services/sidecar/src/session/loop/report.rs: `execute_report_request` from the opened file on, how
-- the bytes of a report become chunks of text. `from_utf8` is the standard library's, and a chunk is
-- kept as its bytes.
use your_connector.Common.{
  ℕ, zero, suc, ◌+◌, ◌-◌, ◌^◌, min, Bool, true, false, Option, none, some, List, [], ◌∷◌, ◌++◌,
  String, ◌<>◌, Result, ok, err, length, ltb, if◌then◌else◌,
}

-- what `from_utf8` returns: for an error, `valid_up_to` and `error_len`
pub data Utf8 : Type 0 where
  valid : Utf8
  invalid : ℕ → Option ℕ → Utf8

abbrev pub take : {A : Type 0} → ℕ → List A → List A
take zero xs = []
take (suc n) [] = []
take (suc n) (x ∷ xs) = x ∷ take n xs

-- what `split_off` returns
abbrev pub drop : {A : Type 0} → ℕ → List A → List A
drop zero xs = xs
drop (suc n) [] = []
drop (suc n) (x ∷ xs) = drop n xs

pub data ReportExecError : Type 0 where
  cancelled : ReportExecError
  failed : String → ReportExecError

-- the fields of a chunk's event that differ from chunk to chunk
pub record Chunk : Type 0 where
  pub bytes : List ℕ
  pub bytes_sent : ℕ
  pub chunk_index : ℕ

-- the variables of the loop, and the chunks sent, in order
pub record Sending : Type 0 where
  pub utf8_carry : List ℕ
  pub bytes_sent : ℕ
  pub chunk_index : ℕ
  pub chunks : List Chunk

abbrev saturating_u64 : ℕ → ℕ → ℕ
saturating_u64 a b = min (a + b) (2 ^ 64 - 1)

-- `emit_chunk`, and the next index
unfoldable pub emit_chunk : List ℕ → Sending → Sending
emit_chunk bytes s = record s {
  chunks =
      s.chunks
      ++ record { bytes = bytes; bytes_sent = s.bytes_sent; chunk_index = s.chunk_index } ∷ [];
  chunk_index = saturating_u64 s.chunk_index 1;
}

abbrev pub emit_filled : List ℕ → Sending → Sending
emit_filled [] s = s
emit_filled (b ∷ bytes) s = emit_chunk (b ∷ bytes) s

abbrev pub is_open : Option ℕ → Bool
is_open none = true
is_open (some n) = false

abbrev pub Outcome : Type 0
Outcome = Result ReportExecError (Unit {0}) × Sending

-- what comes after a read that did not fail
abbrev pub then_turns : (Sending → Option Outcome) → Option Outcome → Option Outcome
then_turns next none = none
then_turns next (some (ok u, after)) = next after
then_turns next (some (err e, after)) = some (err e, after)

-- How one turn of `select!` ends.
pub data Turn : Type 0 where
  cancels : Turn
  passes : Turn  -- the channel is closed, or holds false
  read_failed : String → Turn
  reads : ℕ → List ℕ → Turn  -- a byte and those after it
  ends : Turn

module _ (from_utf8 : List ℕ → Utf8) where
  abbrev pub if_valid : Utf8 → Sending → Option Outcome → Option Outcome
  if_valid valid s rest = rest
  if_valid (invalid n l) s rest = some (err (failed "报告文件编码异常（UTF-8）"), s)

  -- One turn of the inner loop; `rest` goes on after so many bytes have been sent.
  abbrev pub flushed : Sending → (ℕ → Option Outcome) → Utf8 → Option Outcome
  flushed s rest valid = some (ok tt, record (emit_filled s.utf8_carry s) { utf8_carry = [] })
  flushed s rest (invalid valid_up_to error_len) =
      if ltb 0 valid_up_to
      then if_valid (from_utf8 (take valid_up_to s.utf8_carry)) s (rest valid_up_to)
      else if is_open error_len
      then some (ok tt, s)
      else some (err (failed "报告文件不是有效 UTF-8 文本"), s)

  abbrev pub split_carry : Sending → ℕ → Sending
  split_carry s valid_up_to = record (emit_chunk (take valid_up_to s.utf8_carry) s) {
    utf8_carry = drop valid_up_to s.utf8_carry;
  }

  -- The inner loop, on fuel: `none` when that runs out.
  unfoldable pub flush : ℕ → Sending → Option Outcome
  flush zero s = none
  flush (suc fuel) s =
      flushed s (λ valid_up_to. flush fuel (split_carry s valid_up_to)) (from_utf8 s.utf8_carry)

  -- what follows a read that is not empty
  unfoldable pub on_read : List ℕ → Sending → Option Outcome
  on_read bytes s =
      let carry = s.utf8_carry ++ bytes in
      flush (suc (length carry))
        (record s { bytes_sent = saturating_u64 s.bytes_sent (length bytes); utf8_carry = carry })

  abbrev pub if_text : Utf8 → Sending → Outcome
  if_text valid s = (ok tt, record (emit_filled s.utf8_carry s) { utf8_carry = [] })
  if_text (invalid n l) s = (err (failed "报告文件不是有效 UTF-8 文本"), s)

  -- What follows the loop. The variables are not read again, so the carried bytes go as in the loop.
  unfoldable pub on_end : Sending → Outcome
  on_end s = if ltb 0 (length s.utf8_carry) then if_text (from_utf8 s.utf8_carry) s else (ok tt, s)

  -- The turns of the loop; `none` while it still waits.
  unfoldable pub send_chunks : List Turn → Sending → Option Outcome
  send_chunks [] s = none
  send_chunks (cancels ∷ turns) s = some (err cancelled, s)
  send_chunks (passes ∷ turns) s = send_chunks turns s
  send_chunks (read_failed e ∷ turns) s = some (err (failed ("读取报告文件失败: " <> e)), s)
  send_chunks (ends ∷ turns) s = some (on_end s)
  send_chunks (reads b bytes ∷ turns) s = then_turns (send_chunks turns) (on_read (b ∷ bytes) s)
