-- ===== src/Stream.antt =====
-- client/src/transport.ts: the body stream of a transfer (StreamState, flushStream), and `repaired`.
-- What the reader has been given is a list of bytes; whether it is behind is an argument.
pub mod Prefix
use http.Common.{
  ℕ, ◌*◌, ◌-◌, min, Bool, true, false, not, ◌&&◌, ◌||◌, Option, none, some, List, [], ◌++◌, ltb,
  leb, ◌==◌, if◌then◌else◌, all,
}
use http.Wire.Bytes.{subarray}
use http.Reassembly.{Reassembly, complete, contiguous, missing}
use http.SeqTracker.{SeqHint}

abbrev pub stream_chunk : ℕ
stream_chunk = 64 * 1024

pub record StreamState : Type 0 where
  pub sent : List ℕ
  pub emitted : ℕ
  pub paused : Bool
  pub closed : Bool

unfoldable pub make_stream : StreamState
make_stream = record { sent = []; emitted = 0; paused = false; closed = false }

-- `pending > 0 && (st.emitted === 0 || pending >= STREAM_CHUNK || t.asm.complete)`.
abbrev pub emits : ℕ → ℕ → Bool → Bool
emits emitted pending whole = ltb 0 pending && (emitted == 0 || (leb stream_chunk pending || whole))

unfoldable pub flush_stream : StreamState → Reassembly → Bool → StreamState
flush_stream st asm behind =
    let to = contiguous asm in
    let chunk = subarray asm.bytes st.emitted to in
    let sends = emits st.emitted (to - st.emitted) (complete asm) in
    if st.closed then st else record st {
      sent = if sends then st.sent ++ chunk else st.sent;
      emitted = if sends then to else st.emitted;
      paused = st.paused || behind;
    }

-- `repaired`, for the transfer that the hint names: none, one without a size, or its reassembly.
unfoldable pub repaired : Option (Option Reassembly) → SeqHint → Bool
repaired none h = true
repaired (some none) h = false
repaired (some (some asm)) h = all (λ g. leb g.stop h.start) (missing asm (min h.stop asm.size))
