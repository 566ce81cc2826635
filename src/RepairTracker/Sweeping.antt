-- ===== src/RepairTracker/Sweeping.antt =====
-- client/src/reassembly.ts, RepairTracker.claim: its two sweeps against what they stand for.
use http.Common.{
  ℕ, ◌+◌, ◌≤◌, ◌<◌, ◌≡◌, refl, max, Bool, false, not, ◌&&◌, ◌||◌, List, [], ◌∷◌, ◌++◌, ltb, leb,
  if◌then◌else◌, if_cases, any, arith, ◌∙◌,
}
use http.Reassembly.Ranges.{Range, covers, Below, Separated}
use http.RepairTracker.{Pending, drop_ended, opens_before, parts, uncovered}

-- Not empty, in order, disjoint, from `lo` on; neighbours may touch.
abbrev pub Disjoint : ℕ → List Range → Type 0
Disjoint lo [] = Unit {0}
Disjoint lo (r ∷ rs) = (lo ≤ r.start) × (r.start < r.stop) × Disjoint r.stop rs

pub Disjoint-widen : (lo low : ℕ) (rs : List Range) → low ≤ lo → Disjoint lo rs → Disjoint low rs
Disjoint-widen lo low [] h d = tt
Disjoint-widen lo low (r ∷ rs) h d = (omega (arith, d.0), d.1, d.2)

pub Separated-Disjoint : (lo : ℕ) (rs : List Range) → Separated lo rs → Disjoint lo rs
Separated-Disjoint lo [] s = tt
Separated-Disjoint lo (r ∷ rs) s = (
  s.0,
  s.1,
  Disjoint-widen (r.stop + 1) r.stop rs (omega arith) (Separated-Disjoint (r.stop + 1) rs s.2),
)

pub covers-Disjoint : (lo x : ℕ) (rs : List Range) → Disjoint lo rs → x < lo → covers rs x ≡ false
covers-Disjoint lo x [] d h = refl
covers-Disjoint lo x (r ∷ rs) d h =
    ground (arith, d.0, d.1, covers-Disjoint r.stop x rs d.2 (omega (arith, d.0, d.1)))

pub covers-append :
    (x : ℕ) (rs ss : List Range) → covers (rs ++ ss) x ≡ (covers rs x || covers ss x)
covers-append x [] ss = refl
covers-append x (r ∷ rs) ss = ground (arith, covers-append x rs ss)

Disjoint-append :
    (lo hi : ℕ) (rs ss : List Range)
    → lo ≤ hi
    → Disjoint lo rs
    → Below hi rs
    → Disjoint hi ss
    → Disjoint lo (rs ++ ss)
Disjoint-append lo hi [] ss h d b e = Disjoint-widen hi lo ss h e
Disjoint-append lo hi (r ∷ rs) ss h d b e =
    (d.0, d.1, Disjoint-append r.stop hi rs ss b.0 d.2 b.1 e)

covers-drop_ended :
    (at x : ℕ) (rs : List Range) → at ≤ x → covers (drop_ended at rs) x ≡ covers rs x
unfolding drop_ended
covers-drop_ended at x [] h = refl
covers-drop_ended at x (r ∷ rs) h = ground (arith, covers-drop_ended at x rs h)

pub drop_ended-Disjoint :
    (at lo : ℕ) (rs : List Range) → Disjoint lo rs → Disjoint lo (drop_ended at rs)
unfolding drop_ended
drop_ended-Disjoint at lo [] d = tt
drop_ended-Disjoint at lo (r ∷ rs) d =
    if_cases (Disjoint lo) (leb r.stop at) _ _
      (λ e.
        Disjoint-widen r.stop lo (drop_ended at rs) (omega (arith, d.0, d.1))
          (drop_ended-Disjoint at r.stop rs d.2))
      (λ e. d)

-- The parts of a gap are its bytes that no live range holds.
covers-parts :
    (at end lo x : ℕ) (live : List Range)
    → Disjoint lo live
    → covers (parts at end live) x ≡ (leb at x && (ltb x end && not (covers live x)))
unfolding parts
covers-parts at end lo x [] d = ground arith
covers-parts at end lo x (p ∷ ps) d =
    let rest = covers-parts (max at p.stop) end p.stop x ps d.2 in
    ground (arith, rest, d.1, covers-Disjoint p.stop x ps d.2)

parts-Disjoint :
    (at end lo : ℕ) (live : List Range)
    → Disjoint lo live
    → Disjoint at (parts at end live) × Below end (parts at end live)
unfolding parts
parts-Disjoint at end lo [] d = ground arith
parts-Disjoint at end lo (p ∷ ps) d =
    let rest = parts-Disjoint (max at p.stop) end p.stop ps d.2 in
    let low =
      Disjoint-widen (max at p.stop) at (parts (max at p.stop) end ps) (omega arith) rest.0 in
    let mid =
      Disjoint-widen (max at p.stop) p.start (parts (max at p.stop) end ps) (omega (arith, d.1))
        rest.0 in
    ground (arith, rest.1, low, mid)

-- What is left of the gaps is what no live range holds.
pub covers-uncovered :
    (lo low x : ℕ) (live gaps : List Range)
    → Disjoint lo live
    → Disjoint low gaps
    → covers (uncovered live gaps) x ≡ (covers gaps x && not (covers live x))
unfolding uncovered
covers-uncovered lo low x live [] d g = refl
covers-uncovered lo low x live (r ∷ gaps) d g =
    let e = drop_ended-Disjoint r.start lo live d in
    let rest = covers-uncovered lo r.stop x (drop_ended r.start live) gaps e g.2 in
    covers-append x (parts r.start r.stop (drop_ended r.start live)) _
    ∙ ground (
      arith,
      rest,
      covers-parts r.start r.stop lo x (drop_ended r.start live) e,
      covers-drop_ended r.start x live,
      covers-Disjoint r.stop x gaps g.2,
      g.1,
    )

pub uncovered-Disjoint :
    (lo low : ℕ) (live gaps : List Range)
    → Disjoint lo live
    → Disjoint low gaps
    → Disjoint low (uncovered live gaps)
unfolding uncovered
uncovered-Disjoint lo low live [] d g = tt
uncovered-Disjoint lo low live (r ∷ gaps) d g =
    let e = drop_ended-Disjoint r.start lo live d in
    let p = parts-Disjoint r.start r.stop lo (drop_ended r.start live) e in
    Disjoint-append low r.stop _ _ (omega (arith, g.0, g.1)) (Disjoint-widen r.start low _ g.0 p.0)
      p.1 (uncovered-Disjoint lo r.stop (drop_ended r.start live) gaps e g.2)

-- The RESENDs that are not overdue and overlap a hole.
abbrev pub overlaps : List Range → Range → Bool
overlaps holes r = any (λ o. ltb r.start o.stop && ltb o.start r.stop) holes

abbrev pub still_live : ℕ → List Range → List Pending → List Pending
still_live now holes [] = []
still_live now holes (p ∷ ps) =
    if ltb now p.due && overlaps holes p.range
    then p ∷ still_live now holes ps
    else still_live now holes ps

overlaps-Disjoint :
    (lo : ℕ) (r : Range) (holes : List Range)
    → Disjoint lo holes
    → r.stop ≤ lo
    → overlaps holes r ≡ false
overlaps-Disjoint lo r [] d h = refl
overlaps-Disjoint lo r (o ∷ holes) d h =
    ground (arith, d.0, d.1, overlaps-Disjoint o.stop r holes d.2 (omega (arith, d.0, d.1)))

pub opens-overlaps :
    (lo : ℕ) (r : Range) (holes : List Range)
    → Disjoint lo holes
    → opens_before r.stop (drop_ended r.start holes) ≡ overlaps holes r
unfolding drop_ended
opens-overlaps lo r [] d = refl
opens-overlaps lo r (o ∷ holes) d =
    ground (arith, d.1, opens-overlaps o.stop r holes d.2, overlaps-Disjoint o.stop r holes d.2)

pub overlaps-drop_ended :
    (at : ℕ) (r : Range) (holes : List Range)
    → at ≤ r.start
    → overlaps (drop_ended at holes) r ≡ overlaps holes r
unfolding drop_ended
overlaps-drop_ended at r [] h = refl
overlaps-drop_ended at r (o ∷ holes) h = ground (arith, overlaps-drop_ended at r holes h)
