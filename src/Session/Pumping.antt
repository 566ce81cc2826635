-- ===== src/Session/Pumping.antt =====
-- client/src/transport.ts, Http4Client.pumpGrants: the GRANTs that a call sends, and what they spend.
use http.Common.{
  ℕ, ◌+◌, ◌≡◌, refl, sym, ap, ◌∙◌, subst, Bool, Bool-cases, inl, inr, Option, none, some, List, [],
  ◌∷◌, ◌++◌, lookup, append-nil, append_assoc, if◌then◌else◌, leb, arith,
}
use http.Wire.Types.{Packet, grant_packet}
use http.Scheduler.{GrantDecision, Scheduler, set_budget, grants}
use http.Scheduler.Rounds.{IsCapped, Grown-IsCapped}
use http.Scheduler.Granting.{Granted, grants-Granted}
use http.Session.State.{Floats, Session, Transfer, Body, count}
use http.Session.Sending

-- The initial grants of the transfers whose size is not known yet.
abbrev pub unsized : List (ℕ × Transfer) → List ℕ
unsized [] = []
unsized ((id, t) ∷ rest) = elim t.body [
  | none ↦ t.initial_grant ∷ unsized rest
  | some b ↦ unsized rest
]

abbrev pub sum : List ℕ → ℕ
sum [] = 0
sum (n ∷ ns) = n + sum ns

-- The GRANT packets that go out, but for those that the session drops.
abbrev pub grant_of : GrantDecision → Packet
grant_of g =
    grant_packet (record { rpc_id = g.rpc_id; max_offset = g.max_offset; priority = g.priority })

abbrev pub grant_packets : (Packet → Bool) → List GrantDecision → List Packet
grant_packets drops [] = []
grant_packets drops (g ∷ gs) =
    if drops (grant_of g) then grant_packets drops gs else grant_of g ∷ grant_packets drops gs

-- What a call of `pumpGrants` does: it decides on GRANTs as the scheduler's promise says, for the
-- budget as it is and with the initial grants of the transfers without a size reserved, and sends
-- exactly these, in this order.
pub record Pumped (f : Floats) (s r : Session f) : Type 0 where
  pub decisions : List GrantDecision
  pub granted :
      Granted
        (set_budget s.scheduler s.budget.current)
        (sum (unsized s.transfers))
        (decisions, r.scheduler)
  pub sent : r.sent ≡ s.sent ++ grant_packets s.cfg.drops decisions
  pub capped : IsCapped r.scheduler.rpcs

reserved-unsized : (ts : List (ℕ × Transfer)) → Sending.reserved_in ts ≡ sum (unsized ts)
unfolding Sending.reserved_in
reserved-unsized [] = refl
reserved-unsized ((id, t) ∷ rest) = go t.body (reserved-unsized rest)
  where
    go :
        (b : Option Body)
        → Sending.reserved_in rest ≡ sum (unsized rest)
        → Sending.reserve_of b t.initial_grant + Sending.reserved_in rest
          ≡ sum (elim b [ none ↦ t.initial_grant ∷ unsized rest | some c ↦ unsized rest ])
    go none e = ap (λ n. t.initial_grant + n) e
    go (some b) e = omega (arith, e)

module _ (f : Floats) where
  -- What is sent, the scheduler and the options, after some GRANTs.
  record Sends (drops : Packet → Bool) (gs : List GrantDecision) (s r : Session f) : Type 1 where
    sent : r.sent ≡ s.sent ++ grant_packets drops gs
    same_scheduler : r.scheduler ≡ s.scheduler
    same_drops : r.cfg.drops ≡ s.cfg.drops

  raise-Sends :
      (now : ℕ) (g : GrantDecision) (o : Option Transfer) (s : Session f)
      → Sends s.cfg.drops [] s (Sending.raise f now g o s)
  unfolding Sending.raise
  raise-Sends now g none s = record {
    sent = sym (append-nil s.sent);
    same_scheduler = refl;
    same_drops = refl;
  }
  raise-Sends now g (some t) s = record {
    sent = sym (append-nil s.sent);
    same_scheduler = refl;
    same_drops = refl;
  }

  send-Sends :
      (g : GrantDecision) (s : Session f)
      → Sends s.cfg.drops (g ∷ []) s (Sending.send f s (grant_of g))
  unfolding Sending.send
  send-Sends g s = elim (Bool-cases (s.cfg.drops (grant_of g))) [
    | inl e ↦
        rw e (record {
          sent = rw e (sym (append-nil s.sent));
          same_scheduler = refl;
          same_drops = refl;
        })
    | inr e ↦ rw e (record { sent = rw e refl; same_scheduler = refl; same_drops = refl })
  ]

  grant_packets-append :
      (drops : Packet → Bool) (gs hs : List GrantDecision)
      → grant_packets drops (gs ++ hs) ≡ grant_packets drops gs ++ grant_packets drops hs
  grant_packets-append drops [] hs = refl
  grant_packets-append drops (g ∷ gs) hs = elim (Bool-cases (drops (grant_of g))) [
    | inl e ↦ rw e (grant_packets-append drops gs hs)
    | inr e ↦ rw e (ap (λ ps. grant_of g ∷ ps) (grant_packets-append drops gs hs))
  ]

  Sends-trans :
      (drops : Packet → Bool) (gs hs : List GrantDecision) (q r s : Session f)
      → Sends drops gs q r
      → Sends drops hs r s
      → Sends drops (gs ++ hs) q s
  Sends-trans drops gs hs q r s a b = record {
    sent =
        b.sent
        ∙ (ap (λ l. l ++ grant_packets drops hs) a.sent
            ∙ (append_assoc q.sent (grant_packets drops gs) (grant_packets drops hs)
                ∙ ap (λ l. q.sent ++ l) (sym (grant_packets-append drops gs hs))));
    same_scheduler = b.same_scheduler ∙ a.same_scheduler;
    same_drops = b.same_drops ∙ a.same_drops;
  }

  send_grant-Sends :
      (now : ℕ) (at_floor : Bool) (g : GrantDecision) (s : Session f)
      → Sends s.cfg.drops (g ∷ []) s (Sending.send_grant f now at_floor s g)
  unfolding Sending.send_grant
  send_grant-Sends now at_floor g s =
      let more = if at_floor then 1 else 0 in
      let counted : Session f =
        count f
          (λ c. record c {
            grants_sent = c.grants_sent + 1;
            grants_at_floor = c.grants_at_floor + more;
          })
          s in
      let raised : Session f = Sending.raise f now g (lookup g.rpc_id s.transfers) counted in
      let up : Sends s.cfg.drops [] counted raised =
        raise-Sends now g (lookup g.rpc_id s.transfers) counted in
      let out : Sends raised.cfg.drops (g ∷ []) raised (Sending.send f raised (grant_of g)) =
        send-Sends g raised in
      let r =
        Sends-trans s.cfg.drops [] (g ∷ []) counted raised (Sending.send f raised (grant_of g)) up (
          subst (λ d. Sends d (g ∷ []) raised (Sending.send f raised (grant_of g))) up.same_drops
            out) in
      record { sent = r.sent; same_scheduler = r.same_scheduler; same_drops = r.same_drops }

  send_grants-Sends :
      (now : ℕ) (at_floor : Bool) (gs : List GrantDecision) (s : Session f)
      → Sends s.cfg.drops gs s (Sending.send_grants f now at_floor s gs)
  unfolding Sending.send_grants
  send_grants-Sends now at_floor [] s = record {
    sent = sym (append-nil s.sent);
    same_scheduler = refl;
    same_drops = refl;
  }
  send_grants-Sends now at_floor (g ∷ gs) s =
      let next : Session f = Sending.send_grant f now at_floor s g in
      let one = send_grant-Sends now at_floor g s in
      Sends-trans s.cfg.drops (g ∷ []) gs s next (Sending.send_grants f now at_floor next gs) one (
        subst (λ d. Sends d gs next (Sending.send_grants f now at_floor next gs)) one.same_drops
          (send_grants-Sends now at_floor gs next))

  pub pump_grants_lem :
      (now : ℕ) (s : Session f)
      → IsCapped s.scheduler.rpcs
      → Pumped f s (Sending.pump_grants f now s)
  unfolding Sending.pump_grants Sending.sync_queue_limit Sending.note_budget Sending.reserved
      set_budget
  pump_grants_lem now s c =
      let q = set_budget s.scheduler s.budget.current in
      let r = grants q (Sending.reserved_in s.transfers) in
      let g : Granted q (sum (unsized s.transfers)) r =
        subst (λ n. Granted q n (grants q (Sending.reserved_in s.transfers)))
          (reserved-unsized s.transfers) (grants-Granted q (Sending.reserved_in s.transfers) c) in
      let out = send_grants-Sends now (leb s.budget.current s.budget.floor) r.0 _ in
      record {
        decisions = r.0;
        granted =
            subst (λ x. Granted q (sum (unsized s.transfers)) (r.0, x)) (sym out.same_scheduler) g;
        sent = out.sent;
        capped =
            subst (λ (x : Scheduler). IsCapped x.rpcs) (sym out.same_scheduler)
              (Grown-IsCapped s.scheduler.rpcs _ g.grown c);
      }
