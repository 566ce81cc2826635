-- ===== src/Session/Reaching.antt =====
-- client/src/transport.ts: the sessions that events lead to, and what holds of all of them.
use http.Common.{
  ℕ, ◌≡◌, refl, Bool, true, false, none, some, List, ltb, has, length, if_cases, if◌then◌else◌,
  arith,
}
use http.Wire.Types.{Str, Packet, Data, Result, ok, err}
use http.Wire.Checks.{Utf8}
use http.Wire.Decode.{decode}
use http.Priority.{PriorityClass}
use http.Scheduler
use http.Scheduler.{grants}
use http.Stream.{make_stream}
use http.Session.State.{
  Floats, Session, Transfer, Failure, failure, session_over, read_failed, asset_id_too_long,
}
use http.Session.Sending
use http.Session.Finishing
use http.Session.Handling
use http.Session.Events
use http.Session.Opening
use http.Session.Opening.{ClientOptions}
use http.Session.Events.{
  Event, Input, starts, reads, read_fails, ticks, pulls, cancels, closes_client, ends,
}
use http.Session.Sound.{HeldAt, view, IsSound, IsStream}
use http.Session.Views.{send-Holds, send_hello-Holds}
use http.Session.Keeping.{add_answer, put_back, leave_out}
use http.Session.Settling.{Good}
use http.Session.Advancing.{IsPieceOf}
use http.Session.Responding.{data_in, handle_decoded-Good, pull_found-Good, cancel_found-Good}
use http.Session.Ticking.{tick-Good, fail_all-Good}

module _ (assets : ℕ → List ℕ) (f : Floats) (u : Utf8) where
  -- What the server and the random source do: DATA brings a piece of the asset that its request
  -- named, and a new request's ID was not used before.
  abbrev pub IsAllowed : Session f → Event → Type 0
  IsAllowed s (starts id asset_id streams cls) =
      (has id s.transfers ≡ false) × (has id s.answers ≡ false) × (has id s.ended ≡ false)
  IsAllowed s (reads value) =
      (d : Data) → data_in (decode u value) ≡ some d → IsPieceOf (assets d.rpc_id) d
  IsAllowed s read_fails = Unit {0}
  IsAllowed s ticks = Unit {0}
  IsAllowed s (pulls id) = Unit {0}
  IsAllowed s (cancels id) = Unit {0}
  IsAllowed s closes_client = Unit {0}
  IsAllowed s ends = Unit {0}

  -- The sessions that events can lead to.
  pub data Reachable (o : ClientOptions) (max_size limit : ℕ) : Session f → Type 1 where
    connected : Reachable o max_size limit (Opening.connect f o max_size limit)
    stepped :
        (s : Session f) (i : Input)
        → Reachable o max_size limit s
        → IsAllowed s i.event
        → Reachable o max_size limit (Events.step f u s i)

  connect-Good :
      (o : ClientOptions) (max_size limit : ℕ) → Good assets f (Opening.connect f o max_size limit)
  unfolding Opening.connect Opening.new_session Sending.sync_queue_limit Scheduler.init
  connect-Good o max_size limit = send_hello-Holds f (IsSound assets) _ (record {
    holds = record {
      entries = tt;
      apart = tt;
      answered_once = tt;
      ended_once = tt;
      are_answers = tt;
      are_ends = tt;
      capped = tt;
    };
  })

  reject-Good :
      (id : ℕ) (why : Failure) (s : Session f)
      → has id s.transfers ≡ false
      → has id s.answers ≡ false
      → Good assets f s
      → Good assets f (Events.reject f id why s)
  unfolding Events.reject
  reject-Good id why s n a h = record {
    holds =
        add_answer assets s.transfers s.answers s.ended s.scheduler.rpcs id (failure why) n a tt
          h.holds;
  }

  begin-Good :
      (t : Transfer) (req : Packet) (r : Result (List ℕ)) (s : Session f)
      → HeldAt assets t.rpc_id t s.answers s.ended
      → has t.rpc_id s.transfers ≡ false
      → has t.rpc_id s.answers ≡ false
      → Good assets f s
      → Good assets f (Events.begin f t req r s)
  unfolding Events.begin
  begin-Good t req (err why) s g n a h = record { holds = h.holds }
  begin-Good t req (ok bytes) s g n a h =
      if_cases (Good assets f) (ltb s.cfg.max_datagram_size (length bytes)) _ _
        (λ _. reject-Good t.rpc_id asset_id_too_long s n a h)
        (λ _. send-Holds f (IsSound assets) _ _ (
          send_hello-Holds f (IsSound assets) _ (record {
            holds =
                put_back assets (view f s) t.rpc_id t (refl, g)
                  (leave_out assets (view f s) t.rpc_id h.holds);
          })))

  make_stream-IsStream :
      (asset : List ℕ) (streams : Bool)
      → IsStream asset (if streams then some make_stream else none)
  unfolding make_stream
  make_stream-IsStream asset true = (record { same = refl; inside = omega arith }, refl)
  make_stream-IsStream asset false = tt

  start-Good :
      (now id : ℕ) (asset_id : Str) (streams : Bool) (cls : PriorityClass) (s : Session f)
      → IsAllowed s (starts id asset_id streams cls)
      → Good assets f s
      → Good assets f (Events.start f u now id asset_id streams cls s)
  unfolding Events.start Events.new_transfer
  start-Good now id asset_id streams cls s (n, a, e) h =
      if_cases (Good assets f) (Events.is_open f s) _ _
        (λ _.
          begin-Good _ _ _ s
            (record {
              body_agrees = tt;
              stream_agrees = make_stream-IsStream (assets id) streams;
              answered = a;
              runs = e;
            })
            n a h)
        (λ _. reject-Good id _ s n a h)

  step_on-Good :
      (now : ℕ) (behind : ℕ → Bool) (e : Event) (s : Session f)
      → IsAllowed s e
      → Good assets f s
      → Good assets f (Events.step_on f u now behind e s)
  unfolding Events.step_on Handling.read Finishing.pull Finishing.cancel Events.close
      Events.end_session
  step_on-Good now behind (starts id asset_id streams cls) s a h =
      start-Good now id asset_id streams cls s a h
  step_on-Good now behind (reads value) s a h =
      handle_decoded-Good assets f now behind (decode u value) _ a (record { holds = h.holds })
  step_on-Good now behind read_fails s a h = fail_all-Good assets f now read_failed s h
  step_on-Good now behind ticks s a h =
      if_cases (Good assets f) s.ticking _ _ (λ _. tick-Good assets f now s h) (λ _. h)
  step_on-Good now behind (pulls id) s a h = pull_found-Good assets f now id _ s refl h
  step_on-Good now behind (cancels id) s a h = cancel_found-Good assets f now id _ s refl h
  step_on-Good now behind closes_client s a h = record { holds = h.holds }
  step_on-Good now behind ends s a h =
      fail_all-Good assets f now session_over _ (record { holds = h.holds })

  pub Reachable-Good :
      (o : ClientOptions) (max_size limit : ℕ) (s : Session f)
      → Reachable o max_size limit s
      → Good assets f s
  Reachable-Good o max_size limit s connected = connect-Good o max_size limit
  Reachable-Good o max_size limit s (stepped r i h a) =
      step_on-Good i.now i.behind i.event r a (Reachable-Good o max_size limit r h)
