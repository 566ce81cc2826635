-- ===== src/RepairTracker/Storms.antt =====
-- client/src/reassembly.ts, RepairTracker: claim and detect, called one after the other.
use http.Common.{
  ℕ, ◌+◌, ◌≤◌, ◌<◌, ◌≡◌, refl, Bool-cases, inl, inr, true, false, not, ◌&&◌, ◌||◌, none, some, List,
  [], ◌∷◌, ltb, leb, if◌then◌else◌, if_cases, arith, lookup, All,
}
use http.Reassembly.Ranges.{Range, covers, within}
use http.Reassembly.{Reassembly, missing}
use http.Reassembly.Adding.{IsValid}
use http.Reassembly.Gaps.{missing_lem}
use http.RepairTracker.{RepairTracker, Pending, range_list, claim, suspect_loop, detect, since_or}
use http.RepairTracker.Sweeping.{Disjoint, still_live, overlaps}
use http.RepairTracker.Waiting.{awaited}
use http.RepairTracker.Suspects.{
  lost_gaps, starts, suspect_loop-since, suspect_loop_lem, lost_gaps-part, lost_gaps-missing,
  detect-Claimed,
}
use http.RepairTracker.Claiming.{IsOrdered, Claimed, live_now, claim-Claimed}

within-overlaps :
    (x : ℕ) (r : Range) (holes : List Range)
    → within r x ≡ true
    → covers holes x ≡ true
    → overlaps holes r ≡ true
within-overlaps x r [] e h = h
within-overlaps x r (o ∷ holes) e h = ground (arith, within-overlaps x r holes e)

-- A missing byte is held by a live RESEND exactly when one of it is not overdue.
covers-still_live :
    (now x : ℕ) (holes : List Range) (ps : List Pending)
    → covers holes x ≡ true
    → covers (range_list (still_live now holes ps)) x ≡ awaited now ps x
covers-still_live now x holes [] h = refl
covers-still_live now x holes (p ∷ ps) h =
    let rest = covers-still_live now x holes ps h in
    if_cases
      (λ (l : List Pending).
        covers (range_list l) x ≡ ((within p.range x && ltb now p.due) || awaited now ps x))
      (ltb now p.due && overlaps holes p.range) _ _ (λ e. ground (arith, rest))
      (λ e. ground (arith, rest, within-overlaps x p.range holes))

-- A RESEND that is awaited at some time is live before it, while its byte is missing.
awaited-still_live :
    (now until x : ℕ) (holes : List Range) (ps : List Pending)
    → now ≤ until
    → covers holes x ≡ true
    → awaited until ps x ≡ true
    → awaited until (still_live now holes ps) x ≡ true
awaited-still_live now until x holes [] n h e = e
awaited-still_live now until x holes (p ∷ ps) n h e =
    if_cases (λ (l : List Pending). awaited until l x ≡ true)
      (ltb now p.due && overlaps holes p.range) _ _
      (λ k. ground (arith, awaited-still_live now until x holes ps))
      (λ k.
        ground (arith, awaited-still_live now until x holes ps, within-overlaps x p.range holes))

-- What is awaited at a time is awaited before.
awaited-earlier :
    (until now x : ℕ) (ps : List Pending)
    → until ≤ now
    → awaited now ps x ≡ true
    → awaited until ps x ≡ true
awaited-earlier until now x [] n e = e
awaited-earlier until now x (p ∷ ps) n e = ground (arith, awaited-earlier until now x ps n)

-- The calls on a tracker.
pub data Call : Type 0 where
  claims : Reassembly → List Range → ℕ → ℕ → Call
  detects : Reassembly → ℕ → ℕ → ℕ → ℕ → Call

abbrev pub call : RepairTracker → Call → List Range × RepairTracker
call t (claims asm gaps now delay) = claim t asm gaps now delay
call t (detects asm limit now window delay) = detect t asm limit now window delay

abbrev pub calls : RepairTracker → List Call → RepairTracker
calls t [] = t
calls t (c ∷ cs) = calls (call t c).1 cs

-- A call before `due`, on a reassembly where `x` is missing.
abbrev pub IsBefore : ℕ → ℕ → Call → Type 0
IsBefore due x (claims asm gaps now delay) =
    IsValid asm × Disjoint 0 gaps × (now < due) × (covers (missing asm asm.size) x ≡ true)
IsBefore due x (detects asm limit now window delay) =
    IsValid asm × (now < due) × (covers (missing asm asm.size) x ≡ true)

-- When the RESENDs of a call are due.
abbrev pub due_of : Call → ℕ
due_of (claims asm gaps now delay) = now + delay
due_of (detects asm limit now window delay) = now + delay

abbrev pub IsCall : Call → Type 0
IsCall (claims asm gaps now delay) = IsValid asm × Disjoint 0 gaps
IsCall (detects asm limit now window delay) = IsValid asm

-- A RESEND of `x` is awaited until `due`.
record IsAwaited (t : RepairTracker) (due x : ℕ) : Type 0 where
  ordered : IsOrdered t
  waits : (until : ℕ) → until < due → awaited until t.pending x ≡ true

-- A claim leaves it so, and does not ask for the byte.
claim-IsAwaited :
    (t : RepairTracker) (asm : Reassembly) (gaps : List Range) (now delay due x : ℕ)
    → IsAwaited t due x
    → IsBefore due x (claims asm gaps now delay)
    → (covers (claim t asm gaps now delay).0 x ≡ false)
      × IsAwaited (claim t asm gaps now delay).1 due x
claim-IsAwaited t asm gaps now delay due x w (v, g, k, m) =
    let c = claim-Claimed t asm gaps now delay w.ordered v g in
    (
      ground (
        arith,
        c.asked x,
        covers-still_live now x (missing asm asm.size) t.pending m,
        w.waits now k,
      ),
      record {
        ordered = c.ordered;
        waits = λ until l. elim (Bool-cases (leb now until)) [
          | inl e ↦ ground (
            arith,
            c.due x until,
            awaited-still_live now until x (missing asm asm.size) t.pending (ground arith) m
                (w.waits until l),
          )
          | inr e ↦ ground (
            arith,
            c.due x until,
            awaited-earlier until now x (live_now t asm now) (ground arith),
            awaited-still_live now now x (missing asm asm.size) t.pending (omega arith) m
                (w.waits now k),
          )
        ];
      },
    )

-- `detect` asks for exactly the bytes of the gaps that have been suspects for the reordering window
-- and that no live RESEND holds; each is below the limit and has not arrived. Afterwards the
-- suspects are the gaps below the limit, each since it was first seen: since the time noted, if it
-- was a suspect before, else from now on.
pub detect_lem :
    (t : RepairTracker) (asm : Reassembly) (limit now window delay : ℕ)
    → IsOrdered t
    → IsValid asm
    → IsOrdered (detect t asm limit now window delay).1
      × ((x : ℕ)
          → covers (detect t asm limit now window delay).0 x ≡ (
              covers (lost_gaps t.suspects now window (missing asm limit)) x
              && not (covers (range_list (live_now t asm now)) x)))
      × ((x : ℕ)
          → covers (detect t asm limit now window delay).0 x ≡ true
          → (x < limit) × (covers asm.ranges x ≡ false))
      × ((x : ℕ)
          → lookup x (detect t asm limit now window delay).1.suspects ≡ (
              if starts (missing asm limit) x
              then some (since_or (lookup x t.suspects) now)
              else none))
unfolding detect claim lookup
detect_lem t asm limit now window delay o v =
    let gaps = missing_lem asm limit v in
    let c = detect-Claimed t asm limit now window delay o v in
    (
      c.ordered,
      c.asked,
      λ x e.
          ground (
            arith,
            c.asked x,
            lost_gaps-part now window x t.suspects (missing asm limit),
            gaps.0 x,
          ),
      λ x. suspect_loop-since t.suspects [] now window x (missing asm limit),
    )

-- A call before the RESEND of `x` is due leaves it so, and does not ask for the byte.
call-IsAwaited :
    (t : RepairTracker) (c : Call) (due x : ℕ)
    → IsAwaited t due x
    → IsBefore due x c
    → (covers (call t c).0 x ≡ false) × IsAwaited (call t c).1 due x
unfolding detect
call-IsAwaited t (claims asm gaps now delay) due x w b =
    claim-IsAwaited t asm gaps now delay due x w b
call-IsAwaited t (detects asm limit now window delay) due x w (v, k, m) =
    let found = suspect_loop t.suspects now window (missing asm limit) [] in
    let same = suspect_loop_lem t.suspects [] now window (missing asm limit) in
    claim-IsAwaited (record t { suspects = found.0 }) asm found.1 now delay due x
      (record { ordered = record { apart = w.ordered.apart }; waits = w.waits })
      (v, rw same (lost_gaps-missing asm limit now window t.suspects v), k, m)

Claimed-IsAwaited :
    (t : RepairTracker) (asm : Reassembly) (gaps : List Range) (now delay x : ℕ)
    (r : List Range × RepairTracker)
    → Claimed t asm gaps now delay r
    → covers r.0 x ≡ true
    → IsAwaited (r.1) (now + delay) x
Claimed-IsAwaited t asm gaps now delay x r c e = record {
  ordered = c.ordered;
  waits = λ until l. ground (arith, c.due x until);
}

first-IsAwaited :
    (t : RepairTracker) (c : Call) (x : ℕ)
    → IsOrdered t
    → IsCall c
    → covers (call t c).0 x ≡ true
    → IsAwaited (call t c).1 (due_of c) x
first-IsAwaited t (claims asm gaps now delay) x o (v, g) e =
    Claimed-IsAwaited t asm gaps now delay x (claim t asm gaps now delay)
      (claim-Claimed t asm gaps now delay o v g) e
first-IsAwaited t (detects asm limit now window delay) x o v e =
    Claimed-IsAwaited t asm (lost_gaps t.suspects now window (missing asm limit)) now delay x
      (detect t asm limit now window delay) (detect-Claimed t asm limit now window delay o v) e

calls-IsAwaited :
    (t : RepairTracker) (cs : List Call) (due x : ℕ)
    → IsAwaited t due x
    → All (IsBefore due x) cs
    → IsAwaited (calls t cs) due x
calls-IsAwaited t [] due x w b = w
calls-IsAwaited t (c ∷ cs) due x w b =
    calls-IsAwaited (call t c).1 cs due x (call-IsAwaited t c due x w b.0).1 b.1

-- A byte that a call, `claim` or `detect`, asked for is not asked for again before its RESEND is due,
-- however many such calls came between, while the byte is missing, whatever else arrived meanwhile
-- and whichever gaps are claimed.
pub claim_again :
    (t : RepairTracker) (first : Call) (x : ℕ) (cs : List Call) (c : Call)
    → IsOrdered t
    → IsCall first
    → covers (call t first).0 x ≡ true
    → All (IsBefore (due_of first) x) cs
    → IsBefore (due_of first) x c
    → covers (call (calls (call t first).1 cs) c).0 x ≡ false
claim_again t first x cs c o w e b k =
    (call-IsAwaited (calls (call t first).1 cs) c (due_of first) x
      (calls-IsAwaited (call t first).1 cs (due_of first) x (first-IsAwaited t first x o w e) b)
      k).0
