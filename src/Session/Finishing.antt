-- ===== src/Session/Finishing.antt =====
-- client/src/transport.ts: how a transfer's promise and stream end: maybeStart, flushStream, finish,
-- drop, failAll and the stream's pull and cancel.
use http.Common.{
  ℕ, ◌+◌, Bool, true, false, not, ◌&&◌, ◌||◌, Option, none, some, List, [], ◌∷◌, if◌then◌else◌,
  lookup, erase,
}
use http.Wire.Types.{Str}
use http.Scheduler
use http.Stream.{StreamState, flush_stream}
use http.Session.State.{
  Floats, Session, Transfer, Body, Failure, Answer, response, streaming, failure, StreamEnd, closes,
  errors, count, put_transfer,
}
use http.Session.Sending.{pump_grants}

-- The stream after a flush, if there are one and a reassembly.
abbrev pub flushed : Option StreamState → Option Body → Bool → Option StreamState
flushed none body behind = none
flushed (some st) none behind = some st
flushed (some st) (some b) behind = some (flush_stream st b.asm behind)

-- `behind && !st.paused`, where flushStream comes to it.
abbrev pub pauses : Option StreamState → Option Body → Bool → Bool
pauses none body behind = false
pauses (some st) none behind = false
pauses (some st) (some b) behind = not st.closed && (behind && not st.paused)

unfoldable pub flush : Transfer → Bool → Transfer
flush t behind = record t { stream = flushed t.stream t.body behind }

-- `st && !t.settled && t.asm && t.headers`.
abbrev pub is_starting :
    Transfer → Option StreamState → Option Body → Option (List (Str × Str)) → Bool
is_starting t (some st) (some b) (some fields) = not t.settled
is_starting t (some st) (some b) none = false
is_starting t (some st) none fields = false
is_starting t none body fields = false

unfoldable pub started : Transfer → Transfer
started t = record t { settled = t.settled || is_starting t t.stream t.body t.headers }

-- What a promise is resolved with; `t.asm!` and `t.headers!` are there when it is.
abbrev pub answer_of : Option StreamState → Option Body → Option (List (Str × Str)) → Option Answer
answer_of (some st) (some b) (some fields) = some (streaming b.asm.size fields)
answer_of none (some b) (some fields) = some (response b.asm.bytes fields)
answer_of st (some b) none = none
answer_of st none fields = none

abbrev pub answer_for : Transfer → Option Failure → Option Answer
answer_for t none = answer_of t.stream t.body t.headers
answer_for t (some why) = some (failure why)

abbrev pub end_of : Option StreamState → Option Failure → Option StreamEnd
end_of none why = none
end_of (some st) none = if st.closed then none else some (closes st.sent)
end_of (some st) (some why) = if st.closed then none else some (errors st.sent why)

abbrev pub log_to {ℓ} : {A : Type ℓ} → ℕ → Option A → List (ℕ × A) → List (ℕ × A)
log_to id none all = all
log_to id (some a) all = (id, a) ∷ all

module _ (f : Floats) where
  -- `flushStream`, for the session: the transfer takes no new grants while its reader is behind.
  unfoldable pub note_pause : Transfer → Bool → Session f → Session f
  note_pause t behind s =
      if pauses t.stream t.body behind
      then count f (λ c. record c { stream_pauses = c.stream_pauses + 1 })
          (record s { scheduler = Scheduler.set_paused s.scheduler t.rpc_id true })
      else s

  -- `maybeStart`: the transfer, and the session with the promise resolved.
  unfoldable pub note_start : Transfer → Session f → Session f
  note_start t s =
      if is_starting t t.stream t.body t.headers
      then record s { answers = log_to t.rpc_id (answer_of t.stream t.body t.headers) s.answers }
      else s

  -- The transfer's stream and promise, once it is out of the map.
  unfoldable pub settle : Transfer → Option Failure → Session f → Session f
  settle t why s = record s {
    answers = if t.settled then s.answers else log_to t.rpc_id (answer_for t why) s.answers;
    ended = log_to t.rpc_id (end_of t.stream why) s.ended;
  }

  unfoldable pub forget : Transfer → Session f → Session f
  forget t s = record s {
    transfers = erase t.rpc_id s.transfers;
    scheduler = Scheduler.remove s.scheduler t.rpc_id;
  }

  -- `finish` without an error, which flushes the stream, and with one.
  unfoldable pub finish : ℕ → Bool → Transfer → Session f → Session f
  finish now behind t s =
      pump_grants f now (settle (flush t behind) none (note_pause t behind (forget t s)))

  unfoldable pub fail : ℕ → Transfer → Failure → Session f → Session f
  fail now t why s = pump_grants f now (settle t (some why) (forget t s))

  unfoldable pub drop : ℕ → Transfer → Session f → Session f
  drop now t s = pump_grants f now (forget t s)

  -- The loop of `failAll` over the transfers of its start: none ends another one's transfer.
  unfoldable pub fail_found : ℕ → Failure → Option Transfer → Session f → Session f
  fail_found now why none s = s
  fail_found now why (some t) s = fail now t why s

  unfoldable pub fail_each : ℕ → Failure → List (ℕ × Transfer) → Session f → Session f
  fail_each now why [] s = s
  fail_each now why ((id, old) ∷ rest) s =
      fail_each now why rest (fail_found now why (lookup id s.transfers) s)

  unfoldable pub fail_all : ℕ → Failure → Session f → Session f
  fail_all now why s =
      let ended : Session f = fail_each now why s.transfers s in record ended { ticking = false }

  -- A reader takes bytes, or cancels.
  unfoldable pub resume : ℕ → Transfer → Option StreamState → Session f → Session f
  resume now t none s = s
  resume now t (some st) s =
      if st.paused
      then pump_grants f now
          (record (put_transfer f t.rpc_id
            (record t { stream = some (record st { paused = false }) }) s) {
              scheduler = Scheduler.set_paused s.scheduler t.rpc_id false;
            })
      else s

  unfoldable pub pull_found : ℕ → Option Transfer → Session f → Session f
  pull_found now none s = s
  pull_found now (some t) s = resume now t t.stream s

  unfoldable pub pull : ℕ → ℕ → Session f → Session f
  pull now id s = pull_found now (lookup id s.transfers) s

  unfoldable pub cancel_stream : ℕ → Transfer → Option StreamState → Session f → Session f
  cancel_stream now t none s = s
  cancel_stream now t (some st) s = drop now t s

  -- The stream of a finished transfer can still hold bytes, and be cancelled.
  unfoldable pub cancel_found : ℕ → Option Transfer → Session f → Session f
  cancel_found now none s = pump_grants f now s
  cancel_found now (some t) s = cancel_stream now t t.stream s

  unfoldable pub cancel : ℕ → ℕ → Session f → Session f
  cancel now id s = cancel_found now (lookup id s.transfers) s
