-- ===== src/Scheduler/Granting.antt =====
-- `grants` as a whole, and any history of calls.
use http.Common.{
  ℕ, ◌+◌, ◌-◌, ◌≤◌, ◌≡◌, refl, sym, subst, max, Bool, not, ◌&&◌, List, [], arith, ltb, leb, ◌==◌,
  if_cases,
}
use http.Scheduler.{
  Scheduler, GrantDecision, Round, outstanding, grant_loop, is_empty, min_grant, candidates, grants,
}
use http.Scheduler.Entries.{Grown, Grown-refl}
use http.Scheduler.Rounds.{Given, IsCapped, grant_loop-Given}
use http.Scheduler.Strict.{Served, OthersKept, grant_loop-Appends}
use http.Scheduler.Candidates.{candidates-found}

-- What `grants` yields: the decisions and the scheduler behind them.
pub record Granted (s : Scheduler) (reserved : ℕ) (r : List GrantDecision × Scheduler)
    : Type 0 where
  pub grown : Grown s.rpcs r.1.rpcs
  pub within : reserved + outstanding r.1.rpcs ≤ max s.budget (reserved + outstanding s.rpcs)
  pub served : Served 0 (candidates s.rpcs) r.0 r.1.rpcs
  pub others : OthersKept r.0 s.rpcs r.1.rpcs
  pub same_budget : r.1.budget ≡ s.budget

-- The loop begins with this much to spend.
start : Scheduler → ℕ → Bool → Round
start s reserved limited = record {
  rpcs = s.rpcs;
  available = s.budget - (reserved + outstanding s.rpcs);
  out = [];
  limited = limited;
  trace = s.trace;
}

-- Entries only gain grants, within their sizes; the bytes in flight and reserved stay within the
-- budget, or do not grow if they were past it already; and the grants go to the candidates in the
-- scheduling order, each but the last of them served in full. A GRANT carries what its entry is
-- granted afterwards and the candidate's rank, at most 7, and an entry without a GRANT stays as it
-- was.
pub grants-Granted :
    (s : Scheduler) (reserved : ℕ) → IsCapped s.rpcs → Granted s reserved (grants s reserved)
unfolding grants start
grants-Granted s reserved c =
    if_cases (Granted s reserved) (leb s.budget (reserved + outstanding s.rpcs)) _ _
      (λ h. record {
        grown = Grown-refl s.rpcs;
        within = omega arith;
        served = tt;
        others = λ k n. refl;
        same_budget = refl;
      })
      (λ h.
        let ids : List ℕ = candidates s.rpcs in
        let r : Round =
          start s reserved
            (not (is_empty ids) && ltb s.budget (min_grant s + reserved + outstanding s.rpcs)) in
        let idle : Bool = outstanding s.rpcs == 0 in
        let g : Given r (grant_loop ids (min_grant s) idle 0 ids r) =
          grant_loop-Given ids (min_grant s) idle 0 ids r c in
        let (new, out, served, others) =
          grant_loop-Appends ids (min_grant s) idle 0 ids r c (candidates-found s.rpcs) in
        record {
          grown = g.grown;
          within = ground (arith, g.spent);
          served =
              subst (λ l. Served 0 ids l (grant_loop ids (min_grant s) idle 0 ids r).rpcs) (sym out)
                served;
          others =
              subst (λ l. OthersKept l s.rpcs (grant_loop ids (min_grant s) idle 0 ids r).rpcs)
                (sym out) others;
          same_budget = refl;
        })
