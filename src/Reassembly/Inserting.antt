-- ===== src/Reassembly/Inserting.antt =====
-- What the loops of `add` do to the set of bytes, to its size and to the order of the ranges.
use http.Common.{
  ℕ, ◌+◌, ◌-◌, ◌≤◌, ◌<◌, ◌≡◌, refl, ◌∙◌, ◌⊎◌, inl, inr, min, max, Bool, ◌||◌, Bool-cases, List, [],
  ◌∷◌, arith, leb,
}
use http.Reassembly.Ranges.{Range, Sweep, absorb, within, covers, total, Separated, Below}

-- The state of the second loop: the ranges left begin at `lo`.
pub record Sweeping (offset end start stop lo : ℕ) : Type 0 where
  pub nonempty : offset < end
  pub left : start ≤ offset
  pub right : end ≤ stop
  pub left_done : (start ≡ offset) ⊎ (offset < lo)
  pub right_done : (stop ≡ end) ⊎ (stop < lo)

-- All ranges end at `offset` or later.
abbrev pub Reaching : ℕ → List Range → Type 0
Reaching offset [] = Unit {0}
Reaching offset (r ∷ rs) = (offset ≤ r.stop) × Reaching offset rs

Sweeping-next :
    (offset end start stop lo : ℕ) (r : Range)
    → Sweeping offset end start stop lo
    → lo ≤ r.start
    → r.start < r.stop
    → offset ≤ r.stop
    → r.start ≤ end
    → Sweeping offset end (min start r.start) (max stop r.stop) (r.stop + 1)
Sweeping-next offset end start stop lo r v h k m n = ground arith

abbrev pub merged : Sweep → List Range
merged s = record { start = s.start; stop = s.stop } ∷ s.after

join_within :
    (start stop x : ℕ) (r : Range) (rest : Bool)
    → start ≤ r.stop
    → r.start ≤ stop
    → start ≤ stop
    → r.start ≤ r.stop
    → (within (record { start = min start r.start; stop = max stop r.stop }) x || rest)
      ≡ (within (record { start = start; stop = stop }) x || (within r x || rest))
join_within start stop x r rest h k m n = ground arith

pub covers-absorb :
    (offset end c start stop lo : ℕ) (rs : List Range) (x : ℕ)
    → Sweeping offset end start stop lo
    → Separated lo rs
    → Reaching offset rs
    → covers (merged (absorb offset end c start stop rs)) x
      ≡ (within (record { start = start; stop = stop }) x || covers rs x)
unfolding absorb
covers-absorb offset end c start stop lo [] x v s g = refl
covers-absorb offset end c start stop lo (r ∷ rs) x v s g = elim (Bool-cases (leb r.start end)) [
  | inl e ↦ rw e (
      covers-absorb offset end (c + (min r.stop end - max r.start offset)) (min start r.start)
        (max stop r.stop) (r.stop + 1) rs x
        (Sweeping-next offset end start stop lo r v s.0 s.1 g.0 (ground arith)) s.2 g.1
      ∙ join_within start stop x r (covers rs x) (omega (arith, v.left, g.0)) (ground arith)
          (omega arith) (omega arith))
  | inr e ↦ rw e refl
]

-- The merged range and those behind it are separated, and lie below what bounds all.
pub merged-Separated :
    (offset end c start stop lo low : ℕ) (rs : List Range)
    → Sweeping offset end start stop lo
    → Separated lo rs
    → Reaching offset rs
    → low ≤ start
    → low ≤ lo
    → Separated low (merged (absorb offset end c start stop rs))
unfolding absorb
merged-Separated offset end c start stop lo low [] v s g h k = omega arith
merged-Separated offset end c start stop lo low (r ∷ rs) v s g h k =
    elim (Bool-cases (leb r.start end)) [
      | inl e ↦ rw e (
          merged-Separated offset end (c + (min r.stop end - max r.start offset))
            (min start r.start) (max stop r.stop) (r.stop + 1) low rs
            (Sweeping-next offset end start stop lo r v s.0 s.1 g.0 (ground arith)) s.2 g.1
            (omega (arith, s.0)) (omega (arith, s.0, s.1)))
      | inr e ↦ rw e (h, omega arith, (ground arith, s.1, s.2))
    ]

pub merged-Below :
    (offset end c start stop hi : ℕ) (rs : List Range)
    → stop ≤ hi
    → Below hi rs
    → Below hi (merged (absorb offset end c start stop rs))
unfolding absorb
merged-Below offset end c start stop hi [] h b = (h, tt)
merged-Below offset end c start stop hi (r ∷ rs) h b = elim (Bool-cases (leb r.start end)) [
  | inl e ↦ rw e (
      merged-Below offset end (c + (min r.stop end - max r.start offset)) (min start r.start)
        (max stop r.stop) hi rs (omega (arith, b.0)) b.1)
  | inr e ↦ rw e (h, b)
]

-- What the merged ranges hold is what the parts held, the overlap with [offset, end) once.
pub total-absorb :
    (offset end c start stop lo : ℕ) (rs : List Range)
    → Sweeping offset end start stop lo
    → Separated lo rs
    → Reaching offset rs
    → total (merged (absorb offset end c start stop rs))
        + (absorb offset end c start stop rs).covered
      ≡ (stop - start) + total rs + c
unfolding absorb
total-absorb offset end c start stop lo [] v s g = omega arith
total-absorb offset end c start stop lo (r ∷ rs) v s g = elim (Bool-cases (leb r.start end)) [
  | inl e ↦ rw e (
      total-absorb offset end (c + (min r.stop end - max r.start offset)) (min start r.start)
        (max stop r.stop) (r.stop + 1) rs
        (Sweeping-next offset end start stop lo r v s.0 s.1 g.0 (ground arith)) s.2 g.1
      ∙ count offset end start stop lo r c (total rs) v s.0 s.1 g.0 (ground arith))
  | inr e ↦ rw e (omega arith)
]
  where
    count :
        (offset end start stop lo : ℕ) (r : Range) (c t : ℕ)
        → Sweeping offset end start stop lo
        → lo ≤ r.start
        → r.start < r.stop
        → offset ≤ r.stop
        → r.start ≤ end
        → (max stop r.stop - min start r.start) + t + (c + (min r.stop end - max r.start offset))
          ≡ (stop - start) + ((r.stop - r.start) + t) + c
    count offset end start stop lo r c t v h k m n = ground arith

-- What was covered lies in [offset, end), behind what is done.
pub covered-le :
    (offset end c start stop lo : ℕ) (rs : List Range)
    → Separated lo rs
    → (absorb offset end c start stop rs).covered ≤ c + (end - max offset lo)
unfolding absorb
covered-le offset end c start stop lo [] s = omega arith
covered-le offset end c start stop lo (r ∷ rs) s = elim (Bool-cases (leb r.start end)) [
  | inl e ↦ rw e (
      omega (
        arith,
        s.0,
        s.1,
        covered-le offset end (c + (min r.stop end - max r.start offset)) (min start r.start)
            (max stop r.stop) (r.stop + 1) rs s.2,
      ))
  | inr e ↦ rw e (omega arith)
]
