-- ===== src/RepairTracker/Suspects.antt =====
-- client/src/reassembly.ts, RepairTracker.detect: the gaps that are suspects, and those of them that
-- are lost.
use http.Common.{
  ℕ, ◌+◌, ◌≡◌, ◌∙◌, refl, Bool, Bool-cases, inl, inr, true, false, ◌||◌, some, List, [], ◌∷◌, leb,
  ◌==◌, if◌then◌else◌, if_cases, arith, assign, lookup, lookup-assign,
}
use http.Reassembly.Ranges.{Range, covers}
use http.Reassembly.{Reassembly, missing}
use http.Reassembly.Adding.{IsValid}
use http.Reassembly.Gaps.{missing_lem}
use http.RepairTracker.{RepairTracker, suspect_loop, detect, since_or}
use http.RepairTracker.Sweeping.{Disjoint, Disjoint-widen, Separated-Disjoint}
use http.RepairTracker.Claiming.{IsOrdered, Claimed, claim-Claimed}

-- The gaps that have been suspects for the reordering window.
abbrev pub lost_gaps : List (ℕ × ℕ) → ℕ → ℕ → List Range → List Range
lost_gaps old now window [] = []
lost_gaps old now window (g ∷ gaps) =
    if leb (since_or (lookup g.start old) now + window) now
    then g ∷ lost_gaps old now window gaps
    else lost_gaps old now window gaps

-- Whether some gap begins at `x`.
abbrev pub starts : List Range → ℕ → Bool
starts [] x = false
starts (g ∷ gaps) x = x == g.start || starts gaps x

-- Each gap is a suspect since it was first seen.
pub suspect_loop-since :
    (old suspects : List (ℕ × ℕ)) (now window x : ℕ) (gaps : List Range)
    → lookup x (suspect_loop old now window gaps suspects).0
      ≡ (if starts gaps x then some (since_or (lookup x old) now) else lookup x suspects)
unfolding suspect_loop
suspect_loop-since old suspects now window x [] = refl
suspect_loop-since old suspects now window x (g ∷ gaps) =
    let since = since_or (lookup g.start old) now in
    let rest = suspect_loop-since old (assign g.start since suspects) now window x gaps in
    elim (Bool-cases (x == g.start)) [
      | inl e ↦
          let same : x ≡ g.start = ground arith in
          rest ∙ rw same (ground (arith, lookup-assign g.start g.start since suspects))
      | inr e ↦ rest ∙ ground (arith, lookup-assign x g.start since suspects)
    ]

pub suspect_loop_lem :
    (old suspects : List (ℕ × ℕ)) (now window : ℕ) (gaps : List Range)
    → (suspect_loop old now window gaps suspects).1 ≡ lost_gaps old now window gaps
unfolding suspect_loop
suspect_loop_lem old suspects now window [] = refl
suspect_loop_lem old suspects now window (g ∷ gaps) =
    rw
      (suspect_loop_lem old (assign g.start (since_or (lookup g.start old) now) suspects) now window
        gaps)
      refl

lost_gaps-Disjoint :
    (lo now window : ℕ) (old : List (ℕ × ℕ)) (gaps : List Range)
    → Disjoint lo gaps
    → Disjoint lo (lost_gaps old now window gaps)
lost_gaps-Disjoint lo now window old [] d = tt
lost_gaps-Disjoint lo now window old (g ∷ gaps) d =
    let rest = lost_gaps-Disjoint g.stop now window old gaps d.2 in
    if_cases (Disjoint lo) (leb (since_or (lookup g.start old) now + window) now) _ _
      (λ e. (d.0, d.1, rest)) (λ e. Disjoint-widen g.stop lo _ (omega (arith, d.0, d.1)) rest)

pub lost_gaps-part :
    (now window x : ℕ) (old : List (ℕ × ℕ)) (gaps : List Range)
    → covers (lost_gaps old now window gaps) x ≡ true
    → covers gaps x ≡ true
lost_gaps-part now window x old [] e = e
lost_gaps-part now window x old (g ∷ gaps) e =
    if_cases (λ (l : List Range). covers l x ≡ true → covers (g ∷ gaps) x ≡ true)
      (leb (since_or (lookup g.start old) now + window) now) _ _
      (λ h k. ground (arith, lost_gaps-part now window x old gaps))
      (λ h k. ground (arith, lost_gaps-part now window x old gaps k)) e

pub lost_gaps-missing :
    (asm : Reassembly) (limit now window : ℕ) (old : List (ℕ × ℕ))
    → IsValid asm
    → Disjoint 0 (lost_gaps old now window (missing asm limit))
lost_gaps-missing asm limit now window old v =
    lost_gaps-Disjoint 0 now window old (missing asm limit)
      (Separated-Disjoint 0 (missing asm limit) (missing_lem asm limit v).1)

-- `detect` is a claim of the lost gaps.
pub detect-Claimed :
    (t : RepairTracker) (asm : Reassembly) (limit now window delay : ℕ)
    → IsOrdered t
    → IsValid asm
    → Claimed t asm
        (lost_gaps t.suspects now window (missing asm limit))
        now
        delay
        (detect t asm limit now window delay)
unfolding detect
detect-Claimed t asm limit now window delay o v =
    let found = suspect_loop t.suspects now window (missing asm limit) [] in
    let same = suspect_loop_lem t.suspects [] now window (missing asm limit) in
    let c =
      claim-Claimed (record t { suspects = found.0 }) asm
        (lost_gaps t.suspects now window (missing asm limit)) now delay (record { apart = o.apart })
        v (lost_gaps-missing asm limit now window t.suspects v) in
    rw same (record {
      asked = c.asked;
      rising = c.rising;
      ordered = c.ordered;
      awaits = c.awaits;
      due = c.due;
      requested = c.requested;
    })
