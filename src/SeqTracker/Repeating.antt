-- ===== src/SeqTracker/Repeating.antt =====
-- client/src/reassembly.ts, SeqTracker.repeats: which claimed numbers are asked for again.
use http.Common.{ℕ, ◌≡◌, Bool, not, ◌&&◌, ◌||◌, List, has, lookup}
use http.Reassembly.Ranges.{Range, covers}
use http.SeqTracker.{SeqTracker, SeqHint}
use http.SeqTracker.Keeping.{IsValid}
use http.SeqTracker.Ranging.{Rising}
use http.SeqTracker.Claims.{found_such}
use http.SeqTracker.Looping.{settles, asks_again, next_claim, AskedAtMost, Trimmed}

-- What `repeats` does.
pub record Repeated (t : SeqTracker) (now delay max_tries : ℕ) (repaired : SeqHint → Bool)
    (size : ℕ) (r : List Range × SeqTracker) : Type 0 where
  pub valid : IsValid (r.1)
  pub asked :
      (x : ℕ)
      → covers r.0 x ≡ found_such (asks_again now delay max_tries repaired x) (lookup x t.claimed)
  pub rising : Rising size 0 (r.0)
  pub missing : r.1.missing ≡ t.missing
  pub kept :
      (x : ℕ)
      → has x r.1.claimed ≡ (
          has x t.claimed
          && not (found_such (settles now delay max_tries repaired x) (lookup x t.claimed)))
  pub claims :
      (x : ℕ) → lookup x r.1.claimed ≡ next_claim now delay max_tries repaired (lookup x t.claimed)
  pub all_settled : List (ℕ × ℕ)
  pub joined :
      (x : ℕ)
      → has x all_settled ≡ (
          has x t.settled
          || found_such (settles now delay max_tries repaired x) (lookup x t.claimed))
  pub remembered : Trimmed now all_settled r.1.settled
  pub tries : AskedAtMost max_tries t.claimed → AskedAtMost max_tries r.1.claimed
