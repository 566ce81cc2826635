-- ===== src/Session/Keeping.antt =====
-- client/src/transport.ts: taking a transfer out of the map, putting it back, and granting keep a
-- session sound.
use http.Common.{
  ℕ, ◌≡◌, refl, Bool, false, Option, none, some, List, [], ◌∷◌, arith, lookup, assign, has,
  Distinct-assign, Distinct-erase, All-erase, All-assign, All-lookup, All-others,
}
use http.Scheduler.{Rpcs, GrantDecision, Scheduler, set_budget}
use http.Scheduler.Rounds.{IsCapped, Grown-IsCapped}
use http.Scheduler.Granting.{grants-Granted}
use http.Session.State.{Floats, Session, Transfer, Answer, StreamEnd}
use http.Session.Sending
use http.Session.Sound.{IsEntry, Sound, View, view, IsSound, IsSoundBut, IsAnswer, IsEnd}
use http.Session.Views.{Holds, send-Holds, note_budget-Holds}

module _ (assets : ℕ → List ℕ) where
  -- The session apart from one transfer.
  pub leave_out : (v : View) (id : ℕ) → IsSound assets v → IsSoundBut assets id v
  leave_out v id s = (
    record {
      entries = All-erase (IsEntry assets v.1 v.2) id v.0 s.entries;
      apart = Distinct-erase id v.0 s.apart;
      answered_once = s.answered_once;
      ended_once = s.ended_once;
      are_answers = s.are_answers;
      are_ends = s.are_ends;
      capped = s.capped;
    },
    s.apart,
  )

  -- A transfer that the map has, and the session apart from it.
  pub take_out :
      (v : View) (id : ℕ) (t : Transfer)
      → lookup id v.0 ≡ some t
      → IsSound assets v
      → IsEntry assets v.1 v.2 (id, t) × IsSoundBut assets id v
  take_out v id t e s = (All-lookup (IsEntry assets v.1 v.2) id v.0 t e s.entries, leave_out v id s)

  pub put_back :
      (v : View) (id : ℕ) (t : Transfer)
      → IsEntry assets v.1 v.2 (id, t)
      → IsSoundBut assets id v
      → IsSound assets (assign id t v.0, v.1, v.2, v.3)
  put_back v id t p (s, d) = record {
    entries = All-assign (IsEntry assets v.1 v.2) id t v.0 p s.entries;
    apart = Distinct-assign id t v.0 d;
    answered_once = s.answered_once;
    ended_once = s.ended_once;
    are_answers = s.are_answers;
    are_ends = s.are_ends;
    capped = s.capped;
  }

  -- Another scheduler, whose entries are capped too.
  pub with_rpcs :
      (ts : List (ℕ × Transfer)) (answers : List (ℕ × Answer)) (ended : List (ℕ × StreamEnd))
      (q r : Rpcs)
      → (IsCapped q → IsCapped r)
      → Sound assets ts answers ended q
      → Sound assets ts answers ended r
  with_rpcs ts answers ended q r c s = record {
    entries = s.entries;
    apart = s.apart;
    answered_once = s.answered_once;
    ended_once = s.ended_once;
    are_answers = s.are_answers;
    are_ends = s.are_ends;
    capped = c s.capped;
  }

  -- One more answer, for a transfer that is not in the map.
  pub add_answer :
      (ts : List (ℕ × Transfer)) (answers : List (ℕ × Answer)) (ended : List (ℕ × StreamEnd))
      (q : Rpcs) (id : ℕ) (a : Answer)
      → has id ts ≡ false
      → has id answers ≡ false
      → IsAnswer (assets id) a
      → Sound assets ts answers ended q
      → Sound assets ts ((id, a) ∷ answers) ended q
  add_answer ts answers ended q id a e n r s = record {
    entries =
        All-others (IsEntry assets answers ended) (IsEntry assets ((id, a) ∷ answers) ended) id ts e
          (λ k t ne p. (
            p.0,
            record {
              body_agrees = p.1.body_agrees;
              stream_agrees = p.1.stream_agrees;
              answered = ground (arith, p.1.answered);
              runs = p.1.runs;
            },
          ))
          s.entries;
    apart = s.apart;
    answered_once = (n, s.answered_once);
    ended_once = s.ended_once;
    are_answers = (r, s.are_answers);
    are_ends = s.are_ends;
    capped = s.capped;
  }

  pub add_end :
      (ts : List (ℕ × Transfer)) (answers : List (ℕ × Answer)) (ended : List (ℕ × StreamEnd))
      (q : Rpcs) (id : ℕ) (a : StreamEnd)
      → has id ts ≡ false
      → has id ended ≡ false
      → IsEnd (assets id) a
      → Sound assets ts answers ended q
      → Sound assets ts answers ((id, a) ∷ ended) q
  add_end ts answers ended q id a e n r s = record {
    entries =
        All-others (IsEntry assets answers ended) (IsEntry assets answers ((id, a) ∷ ended)) id ts e
          (λ k t ne p. (
            p.0,
            record {
              body_agrees = p.1.body_agrees;
              stream_agrees = p.1.stream_agrees;
              answered = p.1.answered;
              runs = ground (arith, p.1.runs);
            },
          ))
          s.entries;
    apart = s.apart;
    answered_once = s.answered_once;
    ended_once = (n, s.ended_once);
    are_answers = s.are_answers;
    are_ends = (r, s.are_ends);
    capped = s.capped;
  }

  module _ (f : Floats) where
    abbrev Good : Session f → Type 0
    Good = Holds f (IsSound assets)

    raise-Good :
        (now : ℕ) (g : GrantDecision) (o : Option Transfer) (s : Session f)
        → lookup g.rpc_id s.transfers ≡ o
        → Good s
        → Good (Sending.raise f now g o s)
    unfolding Sending.raise
    raise-Good now g none s e h = h
    raise-Good now g (some t) s e h =
        let (p, b) = take_out (view f s) g.rpc_id t e h.holds in
        record {
          holds =
              put_back (view f s) g.rpc_id _
                (
                  p.0,
                  record {
                    body_agrees = p.1.body_agrees;
                    stream_agrees = p.1.stream_agrees;
                    answered = p.1.answered;
                    runs = p.1.runs;
                  },
                )
                b;
        }

    send_grants-Good :
        (now : ℕ) (at_floor : Bool) (gs : List GrantDecision) (s : Session f)
        → Good s
        → Good (Sending.send_grants f now at_floor s gs)
    unfolding Sending.send_grants Sending.send_grant
    send_grants-Good now at_floor [] s h = h
    send_grants-Good now at_floor (g ∷ gs) s h =
        send_grants-Good now at_floor gs _ (
          send-Holds f (IsSound assets) _ _
            (raise-Good now g _ _ refl (record { holds = h.holds })))

    -- Granting keeps a session sound.
    pub pump_grants-Good : (now : ℕ) (s : Session f) → Good s → Good (Sending.pump_grants f now s)
    unfolding Sending.pump_grants Sending.sync_queue_limit set_budget Sending.reserved
    pump_grants-Good now s h =
        let q : Scheduler = set_budget s.scheduler s.budget.current in
        let grown = (grants-Granted q (Sending.reserved f s) h.holds.capped).grown in
        note_budget-Holds f (IsSound assets) _ (
          send_grants-Good now _ _ _ (record {
            holds =
                with_rpcs s.transfers s.answers s.ended s.scheduler.rpcs _
                  (Grown-IsCapped s.scheduler.rpcs _ grown) h.holds;
          }))
