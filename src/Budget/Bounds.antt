-- ===== src/Budget/Bounds.antt =====
-- client/src/budget.ts: the budget stays between floor and cap, and does not grow while it is held.
use http.Common.{
  ℕ, ◌+◌, ◌≤◌, ◌<◌, ◌≡◌, refl, ap, max, List, [], ◌∷◌, Option, none, some, ltb, if_cases, arith,
}
use http.Budget.{
  Rates, Budget, init, on_rtt_sample, note_limited, update, close_interval, on_delivered,
  delivered_since, on_loss, takes_rtt, rtt_or_0, min_interval_ms,
}

-- A call of the controller.
pub data Call : Type 0 where
  rtt_sample delivered : ℕ → ℕ → Call
  limited : Call
  loss : ℕ → Call

module _ (n : Rates) where
  unfoldable pub step : Budget n → Call → Budget n
  step b (rtt_sample r now) = on_rtt_sample n b r now
  step b (delivered bytes now) = on_delivered n b bytes now
  step b limited = note_limited n b
  step b (loss now) = on_loss n b now

  unfoldable pub run : Budget n → List Call → Budget n
  run b [] = b
  run b (c ∷ cs) = run (step b c) cs

  pub record Kept (b c : Budget n) : Type 0 where
    pub floor : c.floor ≡ b.floor
    pub cap : c.cap ≡ b.cap
    pub bounds :
        b.floor ≤ b.current
        → b.current ≤ b.cap
        → b.floor ≤ b.cap
        → (b.floor ≤ c.current) × (c.current ≤ b.cap)

module _ (n : Rates) (gentle : (x : ℕ) → n.shrink x ≤ x) where
  close_interval-Kept :
      (b : Budget n) (bytes elapsed now : ℕ) → Kept n b (close_interval n b bytes elapsed now)
  unfolding close_interval update
  close_interval-Kept b bytes elapsed now = record {
    floor = refl;
    cap = refl;
    bounds = λ h k l. ground arith;
  }

  delivered_since-Kept :
      (start : Option ℕ) (b : Budget n) (bytes now : ℕ)
      → Kept n b (delivered_since n start b bytes now)
  unfolding delivered_since
  delivered_since-Kept none b bytes now = record {
    floor = refl;
    cap = refl;
    bounds = λ h k l. (h, k);
  }
  delivered_since-Kept (some start) b bytes now =
      if_cases (Kept n b) (ltb now (start + max min_interval_ms (rtt_or_0 n b.min_rtt))) _ _
        (λ f. record { floor = refl; cap = refl; bounds = λ h k l. (h, k) })
        (λ f. close_interval-Kept b _ _ now)

  step-Kept : (b : Budget n) (c : Call) → Kept n b (step n b c)
  unfolding step on_rtt_sample note_limited on_delivered on_loss
  step-Kept b (rtt_sample r now) =
      if_cases (Kept n b) (takes_rtt n b.min_rtt b.min_rtt_at r now) _ _
        (λ e. record { floor = refl; cap = refl; bounds = λ h k l. (h, k) })
        (λ e. record { floor = refl; cap = refl; bounds = λ h k l. (h, k) })
  step-Kept b (delivered bytes now) = delivered_since-Kept b.interval_start b bytes now
  step-Kept b limited = record { floor = refl; cap = refl; bounds = λ h k l. (h, k) }
  step-Kept b (loss now) = record {
    floor = refl;
    cap = refl;
    bounds = λ h k l. omega (arith, gentle b.current);
  }

  run-bounds :
      (b : Budget n) (cs : List Call)
      → b.floor ≤ b.current
      → b.current ≤ b.cap
      → (b.floor ≤ (run n b cs).current) × ((run n b cs).current ≤ b.cap)
  unfolding run
  run-bounds b [] h k = (h, k)
  run-bounds b (c ∷ cs) h k =
      let s = step-Kept b c in
      let t = s.bounds h k (omega arith) in
      let r =
        run-bounds (step n b c) cs (omega (arith, s.floor, t.0)) (omega (arith, s.cap, t.1)) in
      (omega (arith, s.floor, r.0), omega (arith, s.cap, r.1))

  -- After any history of calls on a new controller the budget is at least the floor, and at most the
  -- cap or the floor, if that is higher, when the loss factor does not raise it.
  pub budget_bounds :
      (floor cap : ℕ) (cs : List Call)
      → (floor ≤ (run n (init n floor cap) cs).current)
        × ((run n (init n floor cap) cs).current ≤ max floor cap)
  unfolding init
  budget_bounds floor cap cs = run-bounds (init n floor cap) cs (omega arith) (omega arith)

-- While the budget is held after a loss, nothing that arrives makes it grow.
module _ (n : Rates) where
  held_close :
      (b : Budget n) (bytes elapsed now : ℕ)
      → now < b.hold_until
      → (close_interval n b bytes elapsed now).current ≤ b.current
  unfolding close_interval update
  held_close b bytes elapsed now h = ground arith

  held_since :
      (start : Option ℕ) (b : Budget n) (bytes now : ℕ)
      → now < b.hold_until
      → (delivered_since n start b bytes now).current ≤ b.current
  unfolding delivered_since
  held_since none b bytes now h = omega arith
  held_since (some start) b bytes now h =
      if_cases (λ (c : Budget n). c.current ≤ b.current)
        (ltb now (start + max min_interval_ms (rtt_or_0 n b.min_rtt))) _ _ (λ f. omega arith)
        (λ f. held_close b _ _ now h)

  -- A delivery within one round trip (the smallest sample) after a loss does not raise the budget
  -- above what the loss left.
  pub no_growth_after_loss :
      (b : Budget n) (lost_at bytes now rtt : ℕ)
      → b.min_rtt ≡ some rtt
      → now < lost_at + rtt
      → (on_delivered n (on_loss n b lost_at) bytes now).current ≤ (on_loss n b lost_at).current
  unfolding on_delivered on_loss
  no_growth_after_loss b lost_at bytes now rtt e h =
      held_since b.interval_start (on_loss n b lost_at) bytes now
        (let same : rtt_or_0 n b.min_rtt ≡ rtt = ap (rtt_or_0 n) e in omega (arith, same))
