-- ===== src/Budget.antt =====
-- client/src/budget.ts, class BudgetController. Times and byte counts are natural numbers; the
-- floating-point steps (a delivery rate, `k × BDP` and the loss factor, rounded down) are a record of
-- operations.
pub mod Bounds
use http.Common.{
  ℕ, suc, ◌+◌, ◌-◌, min, max, Bool, true, false, ◌||◌, Option, none, some, List, [], ◌∷◌, ◌++◌, ltb,
  leb, if◌then◌else◌,
}

abbrev pub rate_window_rounds : ℕ
rate_window_rounds = 10

abbrev pub min_rtt_window_ms : ℕ
min_rtt_window_ms = 10_000

abbrev pub min_interval_ms : ℕ
min_interval_ms = 4

-- Number arithmetic with the options `k` and `lossFactor` in force.
pub record Rates : Type 1 where
  pub Rate : Type 0
  pub no_rate : Rate
  -- bytes / elapsed.
  pub per_ms : ℕ → ℕ → Rate
  pub exceeds : Rate → Rate → Bool
  -- Math.max of two rates.
  pub higher : Rate → Rate → Rate
  -- Math.floor(k * (maxRate * minRtt)).
  pub k_bdp : Rate → ℕ → ℕ
  -- Math.floor(current * lossFactor).
  pub shrink : ℕ → ℕ

module _ (n : Rates) where
  pub record RateSample : Type 0 where
    pub round : ℕ
    pub rate : n.Rate

  pub record Budget : Type 0 where
    pub floor : ℕ
    pub cap : ℕ
    pub min_rtt : Option ℕ
    pub min_rtt_at : ℕ
    pub samples : List RateSample
    pub round : ℕ
    pub interval_start : Option ℕ
    pub interval_bytes : ℕ
    pub interval_limited : Bool
    pub hold_until : ℕ
    pub current : ℕ

  unfoldable pub init : ℕ → ℕ → Budget
  init floor cap = record {
    floor = floor;
    cap = max floor cap;
    min_rtt = none;
    min_rtt_at = 0;
    samples = [];
    round = 0;
    interval_start = none;
    interval_bytes = 0;
    interval_limited = false;
    hold_until = 0;
    current = floor;
  }

  unfoldable pub max_of : List RateSample → n.Rate → n.Rate
  max_of [] m = m
  max_of (s ∷ samples) m = max_of samples (n.higher m s.rate)

  unfoldable pub max_rate : Budget → n.Rate
  max_rate b = max_of b.samples n.no_rate

  -- `minRtt ?? 0`.
  abbrev pub rtt_or_0 : Option ℕ → ℕ
  rtt_or_0 none = 0
  rtt_or_0 (some rtt) = rtt

  -- `Math.floor(k * bdp)`; bdp is 0 before there is an RTT sample.
  abbrev pub bdp_bytes : Option ℕ → n.Rate → ℕ
  bdp_bytes none rate = 0
  bdp_bytes (some rtt) rate = n.k_bdp rate rtt

  -- `this.minRtt === null || rttMs <= this.minRtt || now - this.minRttAt > MIN_RTT_WINDOW_MS`.
  abbrev pub takes_rtt : Option ℕ → ℕ → ℕ → ℕ → Bool
  takes_rtt none at rtt now = true
  takes_rtt (some old) at rtt now = leb rtt old || ltb (at + min_rtt_window_ms) now

  unfoldable pub on_rtt_sample : Budget → ℕ → ℕ → Budget
  on_rtt_sample b rtt now =
      if takes_rtt b.min_rtt b.min_rtt_at rtt now
      then record b { min_rtt = some rtt; min_rtt_at = now }
      else b

  unfoldable pub note_limited : Budget → Budget
  note_limited b = record b { interval_limited = true }

  unfoldable pub update : Budget → ℕ → Budget
  update b now =
      let target = min b.cap (max b.floor (bdp_bytes b.min_rtt (max_rate b))) in
      record b { current = if ltb now b.hold_until then min b.current target else target }

  -- The samples of the last rounds.
  unfoldable pub in_window : ℕ → List RateSample → List RateSample
  in_window round [] = []
  in_window round (s ∷ samples) =
      if ltb round (s.round + rate_window_rounds)
      then s ∷ in_window round samples
      else in_window round samples

  -- The end of an interval of `elapsed` that brought `bytes`.
  unfoldable pub close_interval : Budget → ℕ → ℕ → ℕ → Budget
  close_interval b bytes elapsed now =
      let rate = n.per_ms bytes elapsed in
      let round = b.round + 1 in
      let kept = in_window round b.samples in
      let raises = b.interval_limited || n.exceeds rate (max_of kept n.no_rate) in
      update
        (record b {
          round = round;
          samples = if raises then kept ++ (record { round = round; rate = rate } ∷ []) else kept;
          interval_start = some now;
          interval_bytes = 0;
          interval_limited = false;
        })
        now

  -- `onDelivered`, with the start of the interval as an argument.
  unfoldable pub delivered_since : Option ℕ → Budget → ℕ → ℕ → Budget
  delivered_since none b bytes now = record b { interval_start = some now }
  delivered_since (some start) b bytes now =
      if ltb now (start + max min_interval_ms (rtt_or_0 b.min_rtt))
      then record b { interval_bytes = b.interval_bytes + bytes }
      else close_interval b (b.interval_bytes + bytes) (now - start) now

  unfoldable pub on_delivered : Budget → ℕ → ℕ → Budget
  on_delivered b bytes now = delivered_since b.interval_start b bytes now

  unfoldable pub on_loss : Budget → ℕ → Budget
  on_loss b now = record b {
    current = max b.floor (n.shrink b.current);
    hold_until = now + rtt_or_0 b.min_rtt;
  }
