-- ===== src/Session/Concluding.antt =====
-- client/src/transport.ts: what a promise and a stream end with, against the asset.
use http.Common.{
  ℕ, ◌<◌, ◌≡◌, refl, sym, ◌∙◌, subst, Bool, true, false, Option, none, some, List, arith, has,
  if_cases, eq_of_get_or,
}
use http.Wire.Types.{Str}
use http.Reassembly.{Reassembly, complete}
use http.Reassembly.Assembly.{Agrees}
use http.Reassembly.Delivery.{complete_iff}
use http.Scheduler.{Rpcs}
use http.Stream.{StreamState, flush_stream}
use http.Stream.Prefix.{flush_stream-IsPrefix, flush_stream-whole}
use http.Session.State.{Transfer, Body, Failure, Answer, StreamEnd, closes, errors}
use http.Session.Finishing.{flushed, is_starting, answer_of, end_of, log_to}
use http.Session.Handling.{is_whole}
use http.Session.Sound.{Sound, IsAnswer, IsEnd, IsBody, IsStream, Each}
use http.Session.Keeping.{add_answer, add_end}

complete-bytes :
    (asset : List ℕ) (a : Reassembly) → Agrees asset a → complete a ≡ true → a.bytes ≡ asset
complete-bytes asset a g c =
    eq_of_get_or 0 a.bytes asset (g.valid.buffer ∙ g.size)
      (λ x k. g.same x ((complete_iff a g.valid).0 c x (subst (λ n. x < n) g.valid.buffer k)))

flush_stream-closed :
    (st : StreamState) (a : Reassembly) (behind : Bool)
    → (flush_stream st a behind).closed ≡ st.closed
unfolding flush_stream
flush_stream-closed st a behind = ground arith

pub flushed-IsStream :
    (asset : List ℕ) (st : Option StreamState) (b : Option Body) (behind : Bool)
    → IsBody asset b
    → IsStream asset st
    → IsStream asset (flushed st b behind)
flushed-IsStream asset none b behind g h = tt
flushed-IsStream asset (some st) none behind g h = h
flushed-IsStream asset (some st) (some b) behind g h =
    (flush_stream-IsPrefix asset b.asm st behind g h.0, flush_stream-closed st b.asm behind ∙ h.1)

pub flushed-IsEnd :
    (asset : List ℕ) (st : Option StreamState) (b : Option Body) (behind : Bool)
    → IsBody asset b
    → IsStream asset st
    → is_whole b ≡ true
    → Each (IsEnd asset) (end_of (flushed st b behind) none)
flushed-IsEnd asset none b behind g h w = tt
flushed-IsEnd asset (some st) none behind g h w = cc w
flushed-IsEnd asset (some st) (some b) behind g h w =
    if_cases (Each (IsEnd asset)) (flush_stream st b.asm behind).closed none
      (some (closes (flush_stream st b.asm behind).sent)) (λ _. tt)
      (λ _. flush_stream-whole asset b.asm st behind g h.0 w h.1)

pub error-IsEnd :
    (asset : List ℕ) (st : Option StreamState) (why : Failure)
    → IsStream asset st
    → Each (IsEnd asset) (end_of st (some why))
error-IsEnd asset none why h = tt
error-IsEnd asset (some st) why h =
    if_cases (Each (IsEnd asset)) st.closed none (some (errors st.sent why)) (λ _. tt)
      (λ _. (st.emitted, h.0.same))

pub answer_of-IsAnswer :
    (asset : List ℕ) (st : Option StreamState) (b : Option Body)
    (fields : Option (List (Str × Str)))
    → IsBody asset b
    → is_whole b ≡ true
    → Each (IsAnswer asset) (answer_of st b fields)
answer_of-IsAnswer asset (some st) (some b) (some fields) g w = g.size
answer_of-IsAnswer asset none (some b) (some fields) g w = complete-bytes asset b.asm g w
answer_of-IsAnswer asset none (some b) none g w = tt
answer_of-IsAnswer asset (some st) (some b) none g w = tt
answer_of-IsAnswer asset none none fields g w = tt
answer_of-IsAnswer asset (some st) none fields g w = tt

pub start-IsAnswer :
    (asset : List ℕ) (t : Transfer) (st : Option StreamState) (b : Option Body)
    (fields : Option (List (Str × Str)))
    → IsBody asset b
    → is_starting t st b fields ≡ true
    → (t.settled ≡ false) × (a : Answer) × (answer_of st b fields ≡ some a) × IsAnswer asset a
start-IsAnswer asset t (some st) (some b) (some fields) g e = (ground arith, _, refl, g.size)
start-IsAnswer asset t (some st) (some b) none g e = cc e
start-IsAnswer asset t (some st) none fields g e = cc e
start-IsAnswer asset t none b fields g e = cc e

module _ (assets : ℕ → List ℕ) where
  pub log_answer :
      (ts : List (ℕ × Transfer)) (answers : List (ℕ × Answer)) (ended : List (ℕ × StreamEnd))
      (q : Rpcs) (id : ℕ) (a : Option Answer)
      → has id ts ≡ false
      → has id answers ≡ false
      → Each (IsAnswer (assets id)) a
      → Sound assets ts answers ended q
      → Sound assets ts (log_to id a answers) ended q
  log_answer ts answers ended q id none e n r s = s
  log_answer ts answers ended q id (some a) e n r s =
      add_answer assets ts answers ended q id a e n r s

  pub log_start :
      (ts : List (ℕ × Transfer)) (answers : List (ℕ × Answer)) (ended : List (ℕ × StreamEnd))
      (q : Rpcs) (id : ℕ) (o : Option Answer) (a : Answer)
      → o ≡ some a
      → has id ts ≡ false
      → has id answers ≡ false
      → IsAnswer (assets id) a
      → Sound assets ts answers ended q
      → Sound assets ts (log_to id o answers) ended q × (has id (log_to id o answers) ≡ true)
  log_start ts answers ended q id o a is e n r s =
      subst
        (λ p. Sound assets ts (log_to id p answers) ended q × (has id (log_to id p answers) ≡ true))
        (sym is) (add_answer assets ts answers ended q id a e n r s, ground arith)

  pub log_end :
      (ts : List (ℕ × Transfer)) (answers : List (ℕ × Answer)) (ended : List (ℕ × StreamEnd))
      (q : Rpcs) (id : ℕ) (a : Option StreamEnd)
      → has id ts ≡ false
      → has id ended ≡ false
      → Each (IsEnd (assets id)) a
      → Sound assets ts answers ended q
      → Sound assets ts answers (log_to id a ended) q
  log_end ts answers ended q id none e n r s = s
  log_end ts answers ended q id (some a) e n r s = add_end assets ts answers ended q id a e n r s
