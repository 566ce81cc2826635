-- ===== src/Session/Outcomes.antt =====
-- client/src/transport.ts: what the users of a client get, after any history of events.
use http.Common.{ℕ, ◌≡◌, false, some, List, lookup, has, Distinct, All-lookup}
use http.Wire.Checks.{Utf8}
use http.Session.State.{Floats, Session, Transfer, Answer, StreamEnd}
use http.Session.Sending.{pump_grants}
use http.Session.Pumping.{Pumped, pump_grants_lem}
use http.Session.Opening.{ClientOptions}
use http.Session.Sound.{IsAnswer, IsEnd, IsEntry, IsStream}
use http.Session.Reaching.{Reachable, Reachable-Good}

module _ (assets : ℕ → List ℕ) (f : Floats) (u : Utf8) (o : ClientOptions) (max_size limit : ℕ)
    (s : Session f) (h : Reachable assets f u o max_size limit s) where
  -- After any events, with DATA that brings pieces of the assets and request IDs that are new: a
  -- promise that was resolved with a body was given the whole asset that its request named, and one
  -- that was resolved with a stream the size of it.
  pub answer-IsAnswer :
      (id : ℕ) (a : Answer) → lookup id s.answers ≡ some a → IsAnswer (assets id) a
  answer-IsAnswer id a e =
      All-lookup (λ p. IsAnswer (assets p.0) p.1) id s.answers a e
        (Reachable-Good assets f u o max_size limit s h).holds.are_answers

  -- After such events: a stream that closed has given its reader the whole asset, and one that
  -- failed a prefix of it.
  pub ended-IsEnd : (id : ℕ) (a : StreamEnd) → lookup id s.ended ≡ some a → IsEnd (assets id) a
  ended-IsEnd id a e =
      All-lookup (λ p. IsEnd (assets p.0) p.1) id s.ended a e
        (Reachable-Good assets f u o max_size limit s h).holds.are_ends

  -- After such events: no promise is settled twice and no stream ended twice, and what is in flight
  -- has one entry in the map for each request.
  pub settles_once : Distinct s.answers × Distinct s.ended × Distinct s.transfers
  settles_once =
      let g = (Reachable-Good assets f u o max_size limit s h).holds in
      (g.answered_once, g.ended_once, g.apart)

  -- After such events, for a transfer in flight: its promise is settled exactly when the transfer
  -- says so, its stream has not ended, and what its reader was given is a prefix of the asset.
  pub in_flight :
      (id : ℕ) (t : Transfer)
      → lookup id s.transfers ≡ some t
      → (has id s.answers ≡ t.settled) × (has id s.ended ≡ false) × IsStream (assets id) t.stream
  in_flight id t e =
      let p =
        All-lookup (IsEntry assets s.answers s.ended) id s.transfers t e
          (Reachable-Good assets f u o max_size limit s h).holds.entries in
      (p.1.answered, p.1.runs, p.1.stream_agrees)

  -- After such events, a call of `pumpGrants` grants no transfer more than its size, keeps what is
  -- in flight and the initial grants of transfers without a size within the budget, or does not add
  -- to them if they are past it already, serves the candidates in the scheduling order, and sends
  -- exactly the GRANTs that it decided on, in this order, but for those that the test hook drops.
  pub pump_grants-Pumped : (now : ℕ) → Pumped f s (pump_grants f now s)
  pump_grants-Pumped now =
      pump_grants_lem f now s (Reachable-Good assets f u o max_size limit s h).holds.capped
