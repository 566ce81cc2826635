-- ===== src/Samples/ReassemblyRuns.antt =====
-- client/src/reassembly.ts, class Reassembly, on an asset of five bytes.
use http.Common.{
  ℕ, ◌<◌, ◌≡◌, ◌↔◌, refl, true, false, not, ◌&&◌, ltb, some, List, [], ◌∷◌, arith, get_or,
}
use http.Wire.Bytes.{write}
use http.Reassembly.Ranges.{Range, skip, absorb, insert_range, gaps_from, covers, Separated}
use http.Reassembly.{Reassembly, init, add, complete, missing, contiguous}
use http.Reassembly.Adding.{IsValid, Added, add-Added}
use http.Reassembly.Delivery.{complete_iff, deliver, deliver_lem, brings}
use http.Reassembly.Gaps.{missing_lem, contiguous_lem}

abbrev asset : List ℕ
asset = 10 ∷ 11 ∷ 12 ∷ 13 ∷ 14 ∷ []

abbrev empty_five : Reassembly
empty_five = record { size = 5; bytes = 0 ∷ 0 ∷ 0 ∷ 0 ∷ 0 ∷ []; ranges = []; received = 0 }

-- Bytes 1 and 2, then 4, have arrived.
abbrev holes : Reassembly
holes = record {
  size = 5;
  bytes = 0 ∷ 11 ∷ 12 ∷ 0 ∷ 14 ∷ [];
  ranges = record { start = 1; stop = 3 } ∷ record { start = 4; stop = 5 } ∷ [];
  received = 3;
}

holes-IsValid : IsValid holes
holes-IsValid = record { apart = omega arith; inside = omega arith; counted = refl; buffer = refl }

-- Bytes 2 and 3 again join the two ranges, and only one byte is new.
abbrev joined : Reassembly
joined = record {
  size = 5;
  bytes = 0 ∷ 11 ∷ 12 ∷ 13 ∷ 14 ∷ [];
  ranges = record { start = 1; stop = 5 } ∷ [];
  received = 4;
}

add_joins : add holes 2 (12 ∷ 13 ∷ []) ≡ some (1, joined)
unfolding add insert_range skip absorb write
add_joins = refl

add-Added_example : Added holes 2 (12 ∷ 13 ∷ []) 1 joined
add-Added_example = add-Added holes 2 (12 ∷ 13 ∷ []) 1 joined holes-IsValid add_joins

abbrev arrivals : List Range
arrivals =
    record { start = 3; stop = 5 }
    ∷ record { start = 0; stop = 2 }
    ∷ record { start = 1; stop = 4 }
    ∷ []

deliver_lem_example :
    (a : Reassembly) × (deliver asset (init 5) arrivals ≡ some a)
    × IsValid a
    × ((x : ℕ) → brings arrivals x ≡ true → get_or a.bytes x 0 ≡ get_or asset x 0)
    × ((complete a ≡ true) ↔ ((x : ℕ) → x < 5 → brings arrivals x ≡ true))
    × (complete a ≡ true → a.bytes ≡ asset)
deliver_lem_example = deliver_lem asset arrivals (omega arith)

missing_lem_example :
    ((x : ℕ) → covers (missing holes 5) x ≡ (ltb x 5 && not (covers holes.ranges x)))
    × Separated 0 (missing holes 5)
missing_lem_example = missing_lem holes 5 holes-IsValid

contiguous_lem_example :
    ((x : ℕ) → x < contiguous holes → covers holes.ranges x ≡ true)
    × (covers holes.ranges (contiguous holes) ≡ false)
contiguous_lem_example = contiguous_lem holes holes-IsValid

missing-holes :
    missing holes 5 ≡ record { start = 0; stop = 1 } ∷ record { start = 3; stop = 4 } ∷ []
unfolding missing gaps_from
missing-holes = refl

complete_iff_example : (complete holes ≡ true) ↔ ((x : ℕ) → x < 5 → covers holes.ranges x ≡ true)
complete_iff_example = complete_iff holes holes-IsValid
