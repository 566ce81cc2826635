-- ===== src/Reassembly/Counting.antt =====
-- How many bytes separated ranges hold, against which bytes they hold.
use http.Common.{
  ℕ, ◌+◌, ◌-◌, ◌≤◌, ◌<◌, ◌≡◌, refl, inl, inr, true, false, Bool-cases, List, [], ◌∷◌, arith, ltb,
}
use http.Reassembly.Ranges.{Range, covers, total, Separated, Below}
use http.Reassembly.Adding.{total-Below}

-- No byte below the first range, and none at the bound or above.
pub covers-lt : (lo x : ℕ) (rs : List Range) → Separated lo rs → x < lo → covers rs x ≡ false
covers-lt lo x [] s h = refl
covers-lt lo x (r ∷ rs) s h = ground (arith, s.0, s.1, covers-lt (r.stop + 1) x rs s.2)

pub covers-ge : (hi x : ℕ) (rs : List Range) → Below hi rs → hi ≤ x → covers rs x ≡ false
covers-ge hi x [] b h = refl
covers-ge hi x (r ∷ rs) b h = ground (arith, b.0, covers-ge hi x rs b.1 h)

-- Ranges that hold as many bytes as there are hold all of them, and the other way round.
pub covers_of_total :
    (lo hi x : ℕ) (rs : List Range)
    → Separated lo rs
    → Below hi rs
    → total rs ≡ hi - lo
    → lo ≤ x
    → x < hi
    → covers rs x ≡ true
covers_of_total lo hi x [] s b t h k = absurd (omega arith)
covers_of_total lo hi x (r ∷ rs) s b t h k =
    ground (arith, s.0, s.1, b.0, total-Below (r.stop + 1) hi rs s.2 b.1)

pub total_of_covers :
    (lo hi : ℕ) (rs : List Range)
    → Separated lo rs
    → Below hi rs
    → ((x : ℕ) → lo ≤ x → x < hi → covers rs x ≡ true)
    → total rs ≡ hi - lo
total_of_covers lo hi [] s b h = elim (Bool-cases (ltb lo hi)) [
  | inl e ↦ absurd (ground (arith, h lo))
  | inr e ↦ ground arith
]
total_of_covers lo hi (r ∷ rs) s b h = ground (
  arith,
  s.0,
  s.1,
  b.0,
  h lo,
  h r.stop,
  covers-lt (r.stop + 1) lo rs s.2,
  covers-lt (r.stop + 1) r.stop rs s.2,
  total-Below (r.stop + 1) hi rs s.2 b.1,
)
