-- ===== src/Session/Stalling.antt =====
-- client/src/transport.ts: a stalled transfer is recovered a bounded number of times.
use http.Common.{
  ℕ, ◌+◌, ◌-◌, ◌≤◌, ◌<◌, ◌≡◌, refl, inl, inr, ◌⊎◌, false, Option, none, some, List, [], ◌∷◌, ◌==◌,
  ltb, arith, lookup, assign, has, Distinct, if_cases,
}
use http.Session.State.{Floats, Session, Transfer, Body, failure, no_progress}
use http.Session.Recovery
use http.Session.Sound.{View}
use http.Session.Views.{Holds, send_resends-Holds}
use http.Session.Ending.{fail-IsRejected}

lookup-assign {ℓ} :
    {A : Type ℓ} (id : ℕ) (a : A) (m : List (ℕ × A)) → lookup id (assign id a m) ≡ some a
unfolding lookup assign
lookup-assign id a [] = ground arith
lookup-assign id a ((k, b) ∷ m) =
    if_cases (λ n. lookup id n ≡ some a) (id == k) _ _ (λ e. ground arith)
      (λ e. ground (arith, lookup-assign id a m))

-- The transfer is in flight after `tries` attempts, and waits from `now` on.
abbrev IsTried : ℕ → ℕ → ℕ → View → Type 0
IsTried id tries now v =
    (u : Transfer) × (lookup id v.0 ≡ some u) × (u.recoveries ≡ tries) × (u.last_progress ≡ now)

module _ (f : Floats) where
  recover_body-IsTried :
      (now granted : ℕ) (t : Transfer) (b : Option Body) (s : Session f)
      → t.last_progress ≡ now
      → Holds f (IsTried t.rpc_id t.recoveries now) (Recovery.recover_body f now granted t b s)
  unfolding Recovery.recover_body
  recover_body-IsTried now granted t none s e = record {
    holds = (t, lookup-assign t.rpc_id t s.transfers, refl, e);
  }
  recover_body-IsTried now granted t (some b) s e =
      send_resends-Holds f (IsTried t.rpc_id t.recoveries now) _ _ _ _
        (record { holds = (_, lookup-assign t.rpc_id _ _, refl, e) })

  -- A recovery of a transfer that is in flight and not settled either is one of the attempts that
  -- are allowed without progress, after which the transfer is in flight with one attempt less left
  -- and its next timeout counts from now; or it is past them, and then the transfer leaves the map
  -- and its promise is rejected.
  pub recover_lem :
      (now granted : ℕ) (t : Transfer) (s : Session f)
      → Distinct s.transfers
      → t.settled ≡ false
      → let r = Recovery.recover f now granted t s in
        ((u : Transfer) × (lookup t.rpc_id r.transfers ≡ some u)
          × (u.last_progress ≡ now)
          × (s.cfg.max_recoveries - u.recoveries < s.cfg.max_recoveries - t.recoveries))
        ⊎ ((s.cfg.max_recoveries ≤ t.recoveries)
            × (has t.rpc_id r.transfers ≡ false)
            × (lookup t.rpc_id r.answers ≡ some (failure no_progress)))
  unfolding Recovery.recover
  recover_lem now granted t s d n =
      if_cases
        (λ (r : Session f).
          ((u : Transfer) × (lookup t.rpc_id r.transfers ≡ some u)
            × (u.last_progress ≡ now)
            × (s.cfg.max_recoveries - u.recoveries < s.cfg.max_recoveries - t.recoveries))
          ⊎ ((s.cfg.max_recoveries ≤ t.recoveries)
              × (has t.rpc_id r.transfers ≡ false)
              × (lookup t.rpc_id r.answers ≡ some (failure no_progress))))
        (ltb s.cfg.max_recoveries (t.recoveries + 1)) _ _
        (λ e.
          let (gone, told) = fail-IsRejected f now t no_progress s d n in
          inr (ground arith, gone, told))
        (λ e.
          let (u, there, tries, at) = (recover_body-IsTried now granted _ t.body _ refl).holds in
          inl (u, there, at, ground (arith, tries)))
