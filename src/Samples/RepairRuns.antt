-- ===== src/Samples/RepairRuns.antt =====
-- client/src/reassembly.ts, class RepairTracker, on a reassembly of five bytes with two holes.
use http.Common.{
  ℕ, ◌<◌, ◌≡◌, refl, true, false, not, ◌&&◌, List, [], ◌∷◌, lookup, arith, none, some,
  if◌then◌else◌,
}
use http.Reassembly.Ranges.{Range, covers, gaps_from}
use http.Reassembly.{Reassembly, missing}
use http.Reassembly.Adding.{IsValid}
use http.RepairTracker.{
  RepairTracker, claim, detect, range_list, live_loop, drop_ended, uncovered, parts, sort_pending,
  insert_pending, suspect_loop, since_or,
}
use http.RepairTracker.Claiming.{IsOrdered, Claimed, claim-Claimed, live_now}
use http.RepairTracker.Suspects.{lost_gaps, starts}
use http.RepairTracker.Storms.{Call, claims, detects, call, calls, claim_again, detect_lem}

-- Bytes 1 and 2, then 4, have arrived.
abbrev two_holes : Reassembly
two_holes = record {
  size = 5;
  bytes = 0 ∷ 11 ∷ 12 ∷ 0 ∷ 14 ∷ [];
  ranges = record { start = 1; stop = 3 } ∷ record { start = 4; stop = 5 } ∷ [];
  received = 3;
}

two_holes-IsValid : IsValid two_holes
two_holes-IsValid = record {
  apart = omega arith;
  inside = omega arith;
  counted = refl;
  buffer = refl;
}

-- Byte 0 has been a suspect since time 1, and was not asked for.
abbrev waiting : RepairTracker
waiting = record { suspects = (0, 1) ∷ []; pending = []; requested = 0 }

waiting-IsOrdered : IsOrdered waiting
waiting-IsOrdered = record { apart = tt }

abbrev both : List Range
both = record { start = 0; stop = 1 } ∷ record { start = 3; stop = 4 } ∷ []

claim-Claimed_example : Claimed waiting two_holes both 5 10 (claim waiting two_holes both 5 10)
claim-Claimed_example =
    claim-Claimed waiting two_holes both 5 10 waiting-IsOrdered two_holes-IsValid (omega arith)

first_claim : covers (claim waiting two_holes both 5 10).0 3 ≡ true
unfolding claim uncovered live_loop drop_ended parts missing gaps_from
first_claim = refl

still_missing : covers (missing two_holes 5) 3 ≡ true
unfolding missing gaps_from
still_missing = refl

abbrev between : List Call
between = claims two_holes both 9 10 ∷ detects two_holes 5 12 3 10 ∷ []

claim_again_example :
    covers
      (call
        (calls (call waiting (claims two_holes both 5 10)).1 between)
        (claims two_holes both 14 10)).0
      3
    ≡ false
claim_again_example =
    claim_again waiting (claims two_holes both 5 10) 3 between (claims two_holes both 14 10)
      waiting-IsOrdered (two_holes-IsValid, omega arith) first_claim
      (
        (two_holes-IsValid, omega arith, omega arith, still_missing),
        ((two_holes-IsValid, omega arith, still_missing), tt),
      )
      (two_holes-IsValid, omega arith, omega arith, still_missing)

-- At its due time the byte is asked for again.
overdue_claim : (claim (claim waiting two_holes both 5 10).1 two_holes both 15 10).0 ≡ both
unfolding claim uncovered live_loop drop_ended parts missing gaps_from sort_pending insert_pending
overdue_claim = refl

detect_lem_example :
    IsOrdered (detect waiting two_holes 4 5 3 10).1
    × ((x : ℕ)
        → covers (detect waiting two_holes 4 5 3 10).0 x ≡ (
            covers (lost_gaps ((0, 1) ∷ []) 5 3 (missing two_holes 4)) x
            && not (covers (range_list (live_now waiting two_holes 5)) x)))
    × ((x : ℕ)
        → covers (detect waiting two_holes 4 5 3 10).0 x ≡ true
        → (x < 4) × (covers two_holes.ranges x ≡ false))
    × ((x : ℕ)
        → lookup x (detect waiting two_holes 4 5 3 10).1.suspects ≡ (
            if starts (missing two_holes 4) x
            then some (since_or (lookup x ((0, 1) ∷ [])) 5)
            else none))
detect_lem_example = detect_lem waiting two_holes 4 5 3 10 waiting-IsOrdered two_holes-IsValid

-- Byte 3 is a suspect only from now on.
old_suspect : (detect waiting two_holes 4 5 3 10).0 ≡ record { start = 0; stop = 1 } ∷ []
unfolding detect suspect_loop claim uncovered live_loop drop_ended parts missing gaps_from lookup
old_suspect = refl
