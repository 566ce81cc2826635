-- ===== src/Samples/SeqRuns.antt =====
-- client/src/reassembly.ts, class SeqTracker: number 0 arrives, then 3, then 1.
use http.Common.{ℕ, ◌≡◌, refl, subst, false, none, some, [], ◌∷◌, mem, lookup, assign, erase}
use http.Reassembly.Ranges.{covers}
use http.SeqTracker.{
  SeqTracker, SeqHint, init, arrive, note_missing, hint_between, fresh, detect, is_lost, keys_where,
  lost_numbers, claim_all, claim, ranges, sort_numbers, insert_number, merge_all, merge, repeats,
  repeat_loop, is_done, trim,
}
use http.SeqTracker.Keeping.{IsValid, init-IsValid}
use http.SeqTracker.Tracking.{arrive-Arrived}
use http.SeqTracker.Ranging.{Rising, ranges_lem}
use http.SeqTracker.Claims.{Detected, detect-Detected, found_such}

abbrev gap_hint : SeqHint
gap_hint = record { rpc_id = 7; start = 10; stop = 30 }

-- 1 and 2 are missing since time 5.
abbrev two_missing : SeqTracker
two_missing = record {
  next = 4;
  last = some (record { rpc_id = 7; start = 30; stop = 40 });
  missing =
      (1, record { since = 5; hint = some gap_hint })
      ∷ (2, record { since = 5; hint = some gap_hint })
      ∷ [];
  claimed = [];
  settled = [];
}

jump :
    (arrive
      (arrive init 0 1 (some (record { rpc_id = 7; start = 0; stop = 10 }))).1
      3
      5
      (some (record { rpc_id = 7; start = 30; stop = 40 })))
    ≡ (fresh, two_missing)
unfolding arrive init note_missing hint_between assign
jump = refl

two_missing-IsValid : IsValid two_missing
two_missing-IsValid =
    let first : SeqHint = record { rpc_id = 7; start = 0; stop = 10 } in
    let one = arrive-Arrived init 0 1 (some first) init-IsValid in
    subst (λ p. IsValid (p.1)) jump
      (arrive-Arrived (arrive init 0 1 (some first)).1 3 5
        (some (record { rpc_id = 7; start = 30; stop = 40 })) one.valid).valid

detect-Detected_example :
    Detected two_missing
      (λ x. found_such (is_lost 4 9 2 3 none x) (lookup x two_missing.missing))
      16
      (detect two_missing 9 2 3 none 16)
detect-Detected_example = detect-Detected two_missing 9 2 3 none 16 two_missing-IsValid

-- Two later numbers have passed 1, and one has passed 2.
one_lost : (detect two_missing 9 2 3 none 16).0 ≡ record { start = 1; stop = 2 } ∷ []
unfolding detect lost_numbers keys_where is_lost ranges sort_numbers insert_number merge_all merge
one_lost = refl

-- 1 was asked for at time 9.
abbrev one_claimed : SeqTracker
one_claimed = (detect two_missing 9 2 3 none 16).1

asked_again : (repeats one_claimed 20 4 3 (λ h. false) 16).0 ≡ record { start = 1; stop = 2 } ∷ []
unfolding repeats repeat_loop is_done trim detect lost_numbers keys_where is_lost claim_all claim
    ranges sort_numbers insert_number merge_all merge lookup assign erase
asked_again = refl

ranges_lem_example :
    ((x : ℕ) → covers (ranges (4 ∷ 2 ∷ 3 ∷ []) 2) x ≡ mem x (4 ∷ 2 ∷ 3 ∷ []))
    × Rising 2 0 (ranges (4 ∷ 2 ∷ 3 ∷ []) 2)
ranges_lem_example = ranges_lem (4 ∷ 2 ∷ 3 ∷ []) 2 (refl, (refl, (refl, tt)))
