-- ===== src/Samples/BudgetRuns.antt =====
-- client/src/budget.ts with rates in bytes per second, k = 2 and a loss factor of 0.85.
use http.Common.{ℕ, ◌*◌, ◌/◌, ◌≤◌, ◌≡◌, refl, max, some, List, [], ◌∷◌, ltb, arith}
use http.Budget.{
  Rates, Budget, init, on_rtt_sample, note_limited, on_delivered, on_loss, delivered_since,
  close_interval, update, in_window, max_of, max_rate,
}
use http.Budget.Bounds.{
  Call, rtt_sample, delivered, limited, loss, step, run, budget_bounds, no_growth_after_loss,
}

abbrev pub whole_rates : Rates
whole_rates = record {
  Rate = ℕ;
  no_rate = 0;
  per_ms = λ bytes elapsed. bytes * 1000 / elapsed;
  exceeds = λ a b. ltb b a;
  higher = max;
  k_bdp = λ rate rtt. 2 * (rate * rtt) / 1000;
  shrink = λ x. x * 85 / 100;
}

whole_rates_gentle : (x : ℕ) → whole_rates.shrink x ≤ x
whole_rates_gentle x = omega arith

abbrev calls : List Call
calls = rtt_sample 10 0 ∷ delivered 100 5 ∷ limited ∷ delivered 900 20 ∷ loss 21 ∷ []

budget_bounds_example :
    (50 ≤ (run whole_rates (init whole_rates 50 1000) calls).current)
    × ((run whole_rates (init whole_rates 50 1000) calls).current ≤ max 50 1000)
budget_bounds_example = budget_bounds whole_rates whole_rates_gentle 50 1000 calls

-- 900 bytes in 15 ms, over 10 ms, twice; then the cap, and the loss factor.
budget_grows : (run whole_rates (init whole_rates 50 1000) calls).current ≡ 850
unfolding run step init on_rtt_sample note_limited on_delivered delivered_since close_interval
    update in_window max_of max_rate on_loss
budget_grows = refl

abbrev sampled : Budget whole_rates
sampled = record (init whole_rates 50 1000) { min_rtt = some 10; current = 400 }

no_growth_after_loss_example :
    (on_delivered whole_rates (on_loss whole_rates sampled 30) 500 35).current
    ≤ (on_loss whole_rates sampled 30).current
no_growth_after_loss_example =
    no_growth_after_loss whole_rates sampled 30 500 35 10 refl (omega arith)
