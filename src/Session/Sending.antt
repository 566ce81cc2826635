-- ===== src/Session/Sending.antt =====
-- client/src/transport.ts: what goes out on its own account: send, sendHello and the grants.
use http.Common.{
  ℕ, zero, suc, ◌+◌, ◌-◌, ◌*◌, ◌/◌, ◌*◌, min, max, Bool, not, ◌||◌, Option, none, some, List, [],
  ◌∷◌, ◌++◌, ltb, leb, ◌==◌, if◌then◌else◌, lookup,
}
use http.Wire.Types.{Packet, hello_packet, grant_packet, max_payload}
use http.Scheduler
use http.Scheduler.{GrantDecision}
use http.Budget
use http.Session.State.{
  Floats, Session, Transfer, Body, Probe, count, put_transfer, hello_repeats, min_initial_grant,
  max_initial_grant,
}

-- Capability.SESSION_SEQ.
abbrev pub session_seq_cap : ℕ
session_seq_cap = 1

-- `t.probe ??= probe`.
abbrev pub probe_or : Option Probe → Probe → Probe
probe_or none p = p
probe_or (some old) p = old

-- `2 * Math.ceil(budget / payload)`, if that is more than the limit.
abbrev pub wider_limit : Option ℕ → ℕ → ℕ → Option ℕ
wider_limit none budget payload = none
wider_limit (some limit) budget zero = if budget == 0 then some limit else none
wider_limit (some limit) budget (suc p) = some (max limit (2 * ((budget + p) / suc p)))

abbrev pub reserve_of : Option Body → ℕ → ℕ
reserve_of none initial_grant = initial_grant
reserve_of (some b) initial_grant = 0

unfoldable pub reserved_in : List (ℕ × Transfer) → ℕ
reserved_in [] = 0
reserved_in ((id, t) ∷ rest) = reserve_of t.body t.initial_grant + reserved_in rest

module _ (f : Floats) where
  -- A packet goes out as it is: encode, which would throw on one that breaks the layout, is taken to
  -- succeed. The REQ was encoded before.
  unfoldable pub send : Session f → Packet → Session f
  send s p =
      if s.cfg.drops p
      then count f (λ c. record c { dropped_outgoing = c.dropped_outgoing + 1 }) s
      else record s { sent = s.sent ++ (p ∷ []) }

  unfoldable pub send_hello : Session f → Session f
  send_hello s =
      if not s.cfg.session_seq || (s.stats.seq_negotiated || ltb hello_repeats s.stats.hellos_sent)
      then s
      else send (count f (λ c. record c { hellos_sent = c.hellos_sent + 1 }) s)
          (hello_packet (record { rpc_id = 0; caps = session_seq_cap }))

  unfoldable pub reserved : Session f → ℕ
  reserved s = reserved_in s.transfers

  abbrev pub bdp_of : Option ℕ → f.rates.Rate → ℕ
  bdp_of none rate = 0
  bdp_of (some rtt) rate = f.bdp_floor rate rtt

  abbrev pub grant_of : Option ℕ → ℕ → ℕ → ℕ
  grant_of (some fixed) bdp free = fixed
  grant_of none bdp free =
      max min_initial_grant (min (min max_initial_grant (max min_initial_grant bdp)) free)

  unfoldable pub next_initial_grant : Session f → ℕ
  next_initial_grant s =
      let bdp = bdp_of s.budget.min_rtt (Budget.max_rate f.rates s.budget) in
      let free = s.budget.current - Scheduler.outstanding s.scheduler.rpcs - reserved s in
      grant_of s.cfg.initial_grant bdp free

  unfoldable pub sync_queue_limit : Session f → Session f
  sync_queue_limit s = record s {
    queue_limit = wider_limit s.queue_limit s.budget.current (max_payload s.cfg.max_datagram_size);
  }

  -- A GRANT starts an RTT probe, unless an older one is still out.
  unfoldable pub raise : ℕ → GrantDecision → Option Transfer → Session f → Session f
  raise now g none s = s
  raise now g (some t) s =
      let probe = probe_or t.probe (record { from = t.ceiling; at = now }) in
      put_transfer f g.rpc_id (record t { probe = some probe; ceiling = g.max_offset }) s

  unfoldable pub send_grant : ℕ → Bool → Session f → GrantDecision → Session f
  send_grant now at_floor s g =
      let more = if at_floor then 1 else 0 in
      let counted : Session f =
        count f
          (λ c. record c {
            grants_sent = c.grants_sent + 1;
            grants_at_floor = c.grants_at_floor + more;
          })
          s in
      send (raise now g (lookup g.rpc_id s.transfers) counted) (
        grant_packet
          (record { rpc_id = g.rpc_id; max_offset = g.max_offset; priority = g.priority }))

  unfoldable pub send_grants : ℕ → Bool → Session f → List GrantDecision → Session f
  send_grants now at_floor s [] = s
  send_grants now at_floor s (g ∷ gs) = send_grants now at_floor (send_grant now at_floor s g) gs

  abbrev pub round_of : Option ℕ → f.rates.Rate → ℕ
  round_of none rate = 0
  round_of (some rtt) rate = f.bdp_round rate rtt

  -- The end of `pumpGrants`.
  unfoldable pub note_budget : Session f → Session f
  note_budget s =
      let b = if s.scheduler.limited then Budget.note_limited f.rates s.budget else s.budget in
      let bdp = round_of b.min_rtt (Budget.max_rate f.rates b) in
      count f (λ c. record c { budget = b.current; bdp_bytes = bdp }) (record s { budget = b })

  unfoldable pub pump_grants : ℕ → Session f → Session f
  pump_grants now s =
      let budget = s.budget.current in
      let low = if s.stats.budget_min == 0 then budget else min s.stats.budget_min budget in
      let ready : Session f = sync_queue_limit (
        count f (λ c. record c { budget_min = low })
          (record s { scheduler = Scheduler.set_budget s.scheduler budget })) in
      let r = Scheduler.grants ready.scheduler (reserved ready) in
      note_budget
        (send_grants now (leb budget s.budget.floor) (record ready { scheduler = r.1 }) r.0)
