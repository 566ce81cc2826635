-- ===== src/SeqTracker/Ranging.antt =====
-- client/src/reassembly.ts, the function `ranges`: the numbers it is given, sorted and merged.
use http.Common.{
  ℕ, ◌+◌, ◌-◌, ◌≤◌, ◌<◌, max, ◌≡◌, refl, false, ◌&&◌, ◌||◌, List, [], ◌∷◌, ltb, leb, ◌==◌, if_cases,
  mem, arith, ◌∙◌, ap,
}
use http.Reassembly.Ranges.{Range, covers, within}
use http.SeqTracker.{insert_number, sort_numbers, merge, merge_all, ranges}

abbrev pub NoRepeats : List ℕ → Type 0
NoRepeats [] = Unit {0}
NoRepeats (n ∷ ns) = (mem n ns ≡ false) × NoRepeats ns

-- In order, each greater than the one before, from `lo` on.
abbrev RisingNumbers : ℕ → List ℕ → Type 0
RisingNumbers lo [] = Unit {0}
RisingNumbers lo (n ∷ ns) = (lo ≤ n) × RisingNumbers (n + 1) ns

-- Not empty, of at most `size` numbers (or one), in order and disjoint, from `lo` on.
abbrev pub Rising : ℕ → ℕ → List Range → Type 0
Rising size lo [] = Unit {0}
Rising size lo (r ∷ rs) =
    (lo ≤ r.start) × (r.start < r.stop) × (r.stop ≤ r.start + max 1 size) × Rising size r.stop rs

mem-insert_number : (x n : ℕ) (ns : List ℕ) → mem x (insert_number n ns) ≡ (x == n || mem x ns)
unfolding insert_number
mem-insert_number x n [] = refl
mem-insert_number x n (m ∷ ms) =
    if_cases (λ (l : List ℕ). mem x l ≡ (x == n || (x == m || mem x ms))) (leb n m) _ _ (λ e. refl)
      (λ e. ground (arith, mem-insert_number x n ms))

mem-sort_numbers : (x : ℕ) (ns : List ℕ) → mem x (sort_numbers ns) ≡ mem x ns
unfolding sort_numbers
mem-sort_numbers x [] = refl
mem-sort_numbers x (n ∷ ns) =
    mem-insert_number x n (sort_numbers ns) ∙ ap (λ b. x == n || b) (mem-sort_numbers x ns)

insert_number-RisingNumbers :
    (lo n : ℕ) (ns : List ℕ)
    → lo ≤ n
    → mem n ns ≡ false
    → RisingNumbers lo ns
    → RisingNumbers lo (insert_number n ns)
unfolding insert_number
insert_number-RisingNumbers lo n [] h e s = (h, tt)
insert_number-RisingNumbers lo n (m ∷ ms) h e s =
    if_cases (RisingNumbers lo) (leb n m) _ _ (λ k. (h, (ground arith, s.1)))
      (λ k. (s.0, insert_number-RisingNumbers (m + 1) n ms (ground arith) (ground arith) s.1))

sort_numbers-RisingNumbers : (ns : List ℕ) → NoRepeats ns → RisingNumbers 0 (sort_numbers ns)
unfolding sort_numbers
sort_numbers-RisingNumbers [] d = tt
sort_numbers-RisingNumbers (n ∷ ns) d =
    insert_number-RisingNumbers 0 n (sort_numbers ns) (omega arith) (mem-sort_numbers n ns ∙ d.0)
      (sort_numbers-RisingNumbers ns d.1)

covers-merge :
    (size x : ℕ) (last : Range) (ns : List ℕ)
    → last.start < last.stop
    → covers (merge size last ns) x ≡ (within last x || mem x ns)
unfolding merge
covers-merge size x last [] h = refl
covers-merge size x last (s ∷ ns) h =
    if_cases (λ (l : List Range). covers l x ≡ (within last x || (x == s || mem x ns)))
      (last.stop == s && ltb (last.stop - last.start) size) _ _
      (λ e. ground (
        arith,
        covers-merge size x (record { start = last.start; stop = s + 1 }) ns (ground arith),
      ))
      (λ e.
        ground (arith, covers-merge size x (record { start = s; stop = s + 1 }) ns (omega arith)))

merge-Rising :
    (size lo : ℕ) (last : Range) (ns : List ℕ)
    → lo ≤ last.start
    → last.start < last.stop
    → last.stop ≤ last.start + max 1 size
    → RisingNumbers last.stop ns
    → Rising size lo (merge size last ns)
unfolding merge
merge-Rising size lo last [] h k l s = (h, k, l, tt)
merge-Rising size lo last (n ∷ ns) h k l s =
    if_cases (Rising size lo) (last.stop == n && ltb (last.stop - last.start) size) _ _
      (λ e.
        merge-Rising size lo (record { start = last.start; stop = n + 1 }) ns h (ground arith)
          (ground arith) s.1)
      (λ e. (
        h,
        k,
        l,
        merge-Rising size last.stop (record { start = n; stop = n + 1 }) ns s.0 (omega arith)
            (ground arith) s.1,
      ))

merge_all_lem :
    (size x : ℕ) (ns : List ℕ)
    → RisingNumbers 0 ns
    → (covers (merge_all size ns) x ≡ mem x ns) × Rising size 0 (merge_all size ns)
unfolding merge_all
merge_all_lem size x [] s = (refl, tt)
merge_all_lem size x (n ∷ ns) s = (
  covers-merge size x (record { start = n; stop = n + 1 }) ns (omega arith) ∙ ground arith,
  merge-Rising size 0 (record { start = n; stop = n + 1 }) ns s.0 (omega arith) (ground arith) s.1,
)

-- The ranges of numbers without repeats hold exactly those numbers; they are in order, disjoint,
-- not empty, and of at most the given size (or of one number, if that is 0).
pub ranges_lem :
    (nums : List ℕ) (size : ℕ)
    → NoRepeats nums
    → ((x : ℕ) → covers (ranges nums size) x ≡ mem x nums) × Rising size 0 (ranges nums size)
unfolding ranges
ranges_lem nums size d =
    let s = sort_numbers-RisingNumbers nums d in
    (
      λ x. (merge_all_lem size x (sort_numbers nums) s).0 ∙ mem-sort_numbers x nums,
      (merge_all_lem size 0 (sort_numbers nums) s).1,
    )
