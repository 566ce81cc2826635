-- ===== src/Reassembly/Ranges.antt =====
-- client/src/reassembly.ts: the list of disjoint ranges, the loops of `add` and `missing` over it,
-- and the set of bytes that it stands for.
use http.Common.{
  ℕ, ◌+◌, ◌-◌, ◌≤◌, ◌<◌, min, max, Bool, false, ◌&&◌, ◌||◌, List, [], ◌∷◌, ◌++◌, ltb, leb,
  if◌then◌else◌,
}

pub record Range : Type 0 where
  pub start : ℕ
  pub stop : ℕ

-- `while (ranges[i].end < offset) i++`: the ranges before `i`, and those from `i` on.
unfoldable pub skip : ℕ → List Range → List Range × List Range
skip offset [] = ([], [])
skip offset (r ∷ rs) =
    let rest = skip offset rs in if ltb r.stop offset then (r ∷ rest.0, rest.1) else ([], r ∷ rs)

pub record Sweep : Type 0 where
  pub covered : ℕ
  pub start : ℕ
  pub stop : ℕ
  pub after : List Range

-- `while (ranges[j].start <= end) { ... j++ }`: what was covered, the merged range, and the ranges
-- from `j` on.
unfoldable pub absorb : ℕ → ℕ → ℕ → ℕ → ℕ → List Range → Sweep
absorb offset end covered start stop [] = record {
  covered = covered;
  start = start;
  stop = stop;
  after = [];
}
absorb offset end covered start stop (r ∷ rs) =
    let next =
      absorb offset end (covered + (min r.stop end - max r.start offset)) (min start r.start)
        (max stop r.stop) rs in
    if leb r.start end
    then next
    else record { covered = covered; start = start; stop = stop; after = r ∷ rs }

-- The two loops and the splice: how much was covered before, and the new ranges.
unfoldable pub insert_range : ℕ → ℕ → List Range → ℕ × List Range
insert_range offset end rs =
    let parts = skip offset rs in
    let s = absorb offset end 0 offset end parts.1 in
    (s.covered, parts.0 ++ (record { start = s.start; stop = s.stop } ∷ s.after))

-- The loop of `missing`: the gaps from `at` on and below `limit`.
unfoldable pub gaps_from : ℕ → ℕ → List Range → List Range
gaps_from limit at [] = if ltb at limit then record { start = at; stop = limit } ∷ [] else []
gaps_from limit at (r ∷ rs) =
    let rest = gaps_from limit r.stop rs in
    if leb limit at
    then []
    else (if ltb at r.start then record { start = at; stop = min r.start limit } ∷ rest else rest)

-- The bytes of a range, and of a list of them.
abbrev pub within : Range → ℕ → Bool
within r x = leb r.start x && ltb x r.stop

abbrev pub covers : List Range → ℕ → Bool
covers [] x = false
covers (r ∷ rs) x = within r x || covers rs x

-- How many bytes the ranges hold.
abbrev pub total : List Range → ℕ
total [] = 0
total (r ∷ rs) = (r.stop - r.start) + total rs

-- Not empty, in order, apart from one another, and from `lo` on.
abbrev pub Separated : ℕ → List Range → Type 0
Separated lo [] = Unit {0}
Separated lo (r ∷ rs) = (lo ≤ r.start) × (r.start < r.stop) × Separated (r.stop + 1) rs

-- No byte at `hi` or above.
abbrev pub Below : ℕ → List Range → Type 0
Below hi [] = Unit {0}
Below hi (r ∷ rs) = (r.stop ≤ hi) × Below hi rs
