-- ===== src/RepairTracker.antt =====
-- client/src/reassembly.ts, class RepairTracker: which missing ranges of one transfer to RESEND.
-- Times are natural numbers; a test of an age is written as a sum.
pub mod Sweeping
pub mod Suspects
pub mod Storms
pub mod Claiming
pub mod Waiting
use http.Common.{
  ℕ, ◌+◌, max, Bool, true, false, ◌&&◌, ◌||◌, Option, none, some, List, [], ◌∷◌, ◌++◌, map, ltb,
  leb, if◌then◌else◌, length, lookup, assign,
}
use http.Reassembly.Ranges.{Range}
use http.Reassembly.{Reassembly, missing}

-- A range that was RESENT and awaits the repair.
pub record Pending : Type 0 where
  pub range : Range
  pub due : ℕ

pub record RepairTracker : Type 0 where
  pub suspects : List (ℕ × ℕ)
  pub pending : List Pending
  pub requested : ℕ

unfoldable pub init : RepairTracker
init = record { suspects = []; pending = []; requested = 0 }

unfoldable pub was_requested : RepairTracker → Bool
was_requested t = ltb 0 t.requested

-- `this.suspects.get(g.start) ?? now`.
abbrev pub since_or : Option ℕ → ℕ → ℕ
since_or none now = now
since_or (some since) now = since

-- The loop of `detect`: the new suspects, and the gaps that are lost.
unfoldable pub suspect_loop :
    List (ℕ × ℕ) → ℕ → ℕ → List Range → List (ℕ × ℕ) → List (ℕ × ℕ) × List Range
suspect_loop old now window [] suspects = (suspects, [])
suspect_loop old now window (g ∷ gaps) suspects =
    let since = since_or (lookup g.start old) now in
    let rest = suspect_loop old now window gaps (assign g.start since suspects) in
    (rest.0, (if leb (since + window) now then g ∷ rest.1 else rest.1))

-- `while (ranges[i].end <= at) i++`: the ranges from `i` on.
unfoldable pub drop_ended : ℕ → List Range → List Range
drop_ended at [] = []
drop_ended at (r ∷ rs) = let rest = drop_ended at rs in if leb r.stop at then rest else r ∷ rs

-- `i < open.length && open[i].start < end`.
abbrev pub opens_before : ℕ → List Range → Bool
opens_before end [] = false
opens_before end (r ∷ rs) = ltb r.start end

-- The first loop of `claim`: the RESENDs that are not overdue and still overlap a gap.
unfoldable pub live_loop : ℕ → List Range → List Pending → List Pending
live_loop now holes [] = []
live_loop now holes (p ∷ ps) =
    let left = drop_ended p.range.start holes in
    let skipped = live_loop now holes ps in
    let rest = live_loop now left ps in
    if leb p.due now then skipped else (if opens_before p.range.stop left then p ∷ rest else rest)

-- The inner loop of the second one, and the push behind it: the parts of a gap from `at` on that
-- the live RESENDs leave.
unfoldable pub parts : ℕ → ℕ → List Range → List Range
parts at end [] = if ltb at end then record { start = at; stop = end } ∷ [] else []
parts at end (p ∷ ps) =
    let rest = parts (max at p.stop) end ps in
    if ltb p.start end
    then (if ltb at p.start then record { start = at; stop = p.start } ∷ rest else rest)
    else (if ltb at end then record { start = at; stop = end } ∷ [] else [])

-- The second loop of `claim`.
unfoldable pub uncovered : List Range → List Range → List Range
uncovered live [] = []
uncovered live (g ∷ gaps) =
    let live2 = drop_ended g.start live in parts g.start g.stop live2 ++ uncovered live2 gaps

abbrev pub range_list : List Pending → List Range
range_list = map (λ p. p.range)

-- `sort((a, b) => a.start - b.start)`, which is stable.
unfoldable pub insert_pending : Pending → List Pending → List Pending
insert_pending p [] = p ∷ []
insert_pending p (q ∷ qs) =
    if leb p.range.start q.range.start then p ∷ q ∷ qs else q ∷ insert_pending p qs

unfoldable pub sort_pending : List Pending → List Pending
sort_pending [] = []
sort_pending (p ∷ ps) = insert_pending p (sort_pending ps)

unfoldable pub claim : RepairTracker → Reassembly → List Range → ℕ → ℕ → List Range × RepairTracker
claim t asm gaps now delay =
    let live = live_loop now (missing asm asm.size) t.pending in
    let out = uncovered (range_list live) gaps in
    let sent = map (λ r. record { range = r; due = now + delay }) out in
    (out, record t { pending = sort_pending (live ++ sent); requested = t.requested + length out })

unfoldable pub detect : RepairTracker → Reassembly → ℕ → ℕ → ℕ → ℕ → List Range × RepairTracker
detect t asm limit now window delay =
    let found = suspect_loop t.suspects now window (missing asm limit) [] in
    claim (record t { suspects = found.0 }) asm found.1 now delay
