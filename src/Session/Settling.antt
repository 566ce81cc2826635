-- ===== src/Session/Settling.antt =====
-- client/src/transport.ts: starting, pausing and ending a transfer keep a session sound.
use http.Common.{
  ℕ, ◌≡◌, refl, sym, ◌∙◌, subst, Bool, true, Option, none, some, List, arith, lookup, erase,
  has-erase, if_cases,
}
use http.Scheduler.History.{removes, pauses, step, step-IsCapped}
use http.Session.State.{Floats, Session, Transfer, Body, Failure, Answer, StreamEnd, put_transfer}
use http.Session.Finishing
use http.Session.Finishing.{
  flushed, started, is_starting, answer_of, answer_for, end_of, log_to, flush,
}
use http.Session.Handling.{is_whole}
use http.Session.Sound.{
  HeldAt, Sound, view, IsSound, IsSoundBut, IsAnswer, IsEnd, IsBody, InHand, Gone, Each,
}
use http.Session.Views.{Holds}
use http.Session.Keeping.{take_out, put_back, with_rpcs, pump_grants-Good}
use http.Session.Concluding.{
  flushed-IsStream, flushed-IsEnd, error-IsEnd, answer_of-IsAnswer, start-IsAnswer, log_answer,
  log_start, log_end,
}

module _ (assets : ℕ → List ℕ) (f : Floats) where
  abbrev pub Good : Session f → Type 0
  Good = Holds f (IsSound assets)

  abbrev pub Hand : Transfer → Session f → Type 0
  Hand t = Holds f (InHand assets t)

  -- A handler takes the transfer that it looked up, and writes it back.
  pub take_found :
      (id : ℕ) (t : Transfer) (s : Session f)
      → lookup id s.transfers ≡ some t
      → Good s
      → (t.rpc_id ≡ id) × Hand t s
  take_found id t s e h =
      let (p, b) = take_out assets (view f s) id t e h.holds in
      (
        p.0,
        record {
          holds =
              subst (λ k. IsSoundBut assets k (view f s) × HeldAt assets k t s.answers s.ended)
                (sym p.0) (b, p.1);
        },
      )

  -- Another body that agrees with the asset. No other field of a transfer but its ID, its stream
  -- and whether it is settled counts.
  pub with_body :
      (t : Transfer) (b : Option Body) (s : Session f)
      → IsBody (assets t.rpc_id) b
      → Hand t s
      → Hand (record t { body = b }) s
  with_body t b s g h = record {
    holds = (
      h.holds.0,
      record {
        body_agrees = g;
        stream_agrees = h.holds.1.stream_agrees;
        answered = h.holds.1.answered;
        runs = h.holds.1.runs;
      },
    );
  }

  pub put_found : (t : Transfer) (s : Session f) → Hand t s → Good (put_transfer f t.rpc_id t s)
  put_found t s h = record {
    holds = put_back assets (view f s) t.rpc_id t (refl, h.holds.1) h.holds.0;
  }

  pub note_start-Hand :
      (t : Transfer) (s : Session f) → Hand t s → Hand (started t) (Finishing.note_start f t s)
  unfolding Finishing.note_start started
  note_start-Hand t s h =
      let ((sound, apart), held) = h.holds in
      if_cases (Hand (started t)) (is_starting t t.stream t.body t.headers) _ _
        (λ e.
          let (n, a, is, r) =
            start-IsAnswer (assets t.rpc_id) t t.stream t.body t.headers held.body_agrees e in
          let (more, there) =
            log_start assets (erase t.rpc_id s.transfers) s.answers s.ended s.scheduler.rpcs
              t.rpc_id _ a is (ground (arith, has-erase t.rpc_id t.rpc_id s.transfers apart))
              (held.answered ∙ n) r sound in
          record {
            holds = (
              (more, apart),
              record {
                body_agrees = held.body_agrees;
                stream_agrees = held.stream_agrees;
                answered = ground (arith, there);
                runs = held.runs;
              },
            );
          })
        (λ e. record {
          holds = (
            h.holds.0,
            record {
              body_agrees = held.body_agrees;
              stream_agrees = held.stream_agrees;
              answered = ground (arith, held.answered);
              runs = held.runs;
            },
          );
        })

  flush-HeldAt :
      (t : Transfer) (behind : Bool) (answers : List (ℕ × Answer)) (ended : List (ℕ × StreamEnd))
      → HeldAt assets t.rpc_id t answers ended
      → HeldAt assets t.rpc_id (flush t behind) answers ended
  unfolding flush
  flush-HeldAt t behind answers ended g = record {
    body_agrees = g.body_agrees;
    stream_agrees =
        flushed-IsStream (assets t.rpc_id) t.stream t.body behind g.body_agrees g.stream_agrees;
    answered = g.answered;
    runs = g.runs;
  }

  pub flush-Hand :
      (t : Transfer) (behind : Bool) (s : Session f) → Hand t s → Hand (flush t behind) s
  unfolding flush
  flush-Hand t behind s h = record {
    holds = (h.holds.0, flush-HeldAt t behind s.answers s.ended h.holds.1);
  }

  flush-Gone :
      (t : Transfer) (behind : Bool) (s : Session f)
      → Holds f (Gone assets t) s
      → Holds f (Gone assets (flush t behind)) s
  unfolding flush
  flush-Gone t behind s h = record {
    holds = (h.holds.0, h.holds.1, flush-HeldAt t behind s.answers s.ended h.holds.2);
  }

  forget-Gone :
      (t : Transfer) (s : Session f) → Hand t s → Holds f (Gone assets t) (Finishing.forget f t s)
  unfolding Finishing.forget step
  forget-Gone t s h =
      let ((sound, apart), held) = h.holds in
      record {
        holds = (
          with_rpcs assets _ s.answers s.ended s.scheduler.rpcs _
              (step-IsCapped s.scheduler (removes t.rpc_id)) sound,
          ground (arith, has-erase t.rpc_id t.rpc_id s.transfers apart),
          held,
        );
      }

  -- A pause only changes an entry of the scheduler.
  pause-Gone :
      (t u : Transfer) (behind : Bool) (s : Session f)
      → Holds f (Gone assets u) s
      → Holds f (Gone assets u) (Finishing.note_pause f t behind s)
  unfolding Finishing.note_pause step
  pause-Gone t u behind s h =
      if_cases (Holds f (Gone assets u)) (Finishing.pauses t.stream t.body behind) _ _
        (λ _. record {
          holds = (
            with_rpcs assets s.transfers s.answers s.ended s.scheduler.rpcs _
                (step-IsCapped s.scheduler (pauses t.rpc_id true)) h.holds.0,
            h.holds.1,
            h.holds.2,
          );
        })
        (λ _. h)

  pub note_pause-Hand :
      (t u : Transfer) (behind : Bool) (s : Session f)
      → Hand u s
      → Hand u (Finishing.note_pause f t behind s)
  unfolding Finishing.note_pause step
  note_pause-Hand t u behind s h =
      if_cases (Hand u) (Finishing.pauses t.stream t.body behind) _ _
        (λ _. record {
          holds = (
            (
              with_rpcs assets _ s.answers s.ended s.scheduler.rpcs _
                  (step-IsCapped s.scheduler (pauses t.rpc_id true)) h.holds.0.0,
              h.holds.0.1,
            ),
            h.holds.1,
          );
        })
        (λ _. h)

  settle-Good :
      (t : Transfer) (why : Option Failure) (s : Session f)
      → Each (IsAnswer (assets t.rpc_id)) (answer_for t why)
      → Each (IsEnd (assets t.rpc_id)) (end_of t.stream why)
      → Holds f (Gone assets t) s
      → Good (Finishing.settle f t why s)
  unfolding Finishing.settle
  settle-Good t why s a e h =
      let (sound, gone, held) = h.holds in
      record {
        holds =
            log_end assets s.transfers _ s.ended s.scheduler.rpcs t.rpc_id (end_of t.stream why)
              gone held.runs e
              (if_cases (λ l. Sound assets s.transfers l s.ended s.scheduler.rpcs) t.settled
                s.answers (log_to t.rpc_id (answer_for t why) s.answers) (λ _. sound)
                (λ n.
                  log_answer assets s.transfers s.answers s.ended s.scheduler.rpcs t.rpc_id
                    (answer_for t why) gone (held.answered ∙ n) a sound));
      }

  -- A transfer that ends, whole or with an error, leaves a sound session.
  pub finish-Good :
      (now : ℕ) (behind : Bool) (t : Transfer) (s : Session f)
      → is_whole t.body ≡ true
      → Hand t s
      → Good (Finishing.finish f now behind t s)
  unfolding Finishing.finish flush
  finish-Good now behind t s w h =
      let held = h.holds.1 in
      pump_grants-Good assets f now _ (
        settle-Good (flush t behind) none _
          (answer_of-IsAnswer (assets t.rpc_id) (flushed t.stream t.body behind) t.body t.headers
            held.body_agrees w)
          (flushed-IsEnd (assets t.rpc_id) t.stream t.body behind held.body_agrees
            held.stream_agrees w)
          (pause-Gone t (flush t behind) behind _ (flush-Gone t behind _ (forget-Gone t s h))))

  pub fail-Good :
      (now : ℕ) (t : Transfer) (why : Failure) (s : Session f)
      → Hand t s
      → Good (Finishing.fail f now t why s)
  unfolding Finishing.fail
  fail-Good now t why s h = pump_grants-Good assets f now _ (
      settle-Good t (some why) _ tt
        (error-IsEnd (assets t.rpc_id) t.stream why h.holds.1.stream_agrees) (forget-Gone t s h))

  pub drop-Good :
      (now : ℕ) (t : Transfer) (s : Session f) → Hand t s → Good (Finishing.drop f now t s)
  unfolding Finishing.drop
  drop-Good now t s h =
      pump_grants-Good assets f now _ (record { holds = (forget-Gone t s h).holds.0 })
