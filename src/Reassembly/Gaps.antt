-- ===== src/Reassembly/Gaps.antt =====
-- `missing`, `contiguous` and `frontier` against the set of bytes received.
use http.Common.{
  ℕ, ◌+◌, ◌-◌, ◌≤◌, ◌<◌, ◌≡◌, refl, ◌∙◌, ◌⊎◌, inl, inr, true, false, not, ◌&&◌, Bool-cases, List,
  [], ◌∷◌, arith, ltb, leb, ◌==◌,
}
use http.Reassembly.Ranges.{Range, covers, Separated, gaps_from}
use http.Reassembly.Insertion.{Separated-widen}
use http.Reassembly.Adding.{IsValid}
use http.Reassembly.Counting.{covers-lt}
use http.Reassembly.{Reassembly, missing, contiguous, frontier, first_end, last_end}

gaps_above : (limit at : ℕ) (rs : List Range) → limit ≤ at → gaps_from limit at rs ≡ []
unfolding gaps_from
gaps_above limit at [] h = ground arith
gaps_above limit at (r ∷ rs) h = ground arith

-- From `at` on, a byte is in a gap exactly when it is below the limit and not received.
covers-gaps_from :
    (limit at x : ℕ) (rs : List Range)
    → Separated at rs
    → covers (gaps_from limit at rs) x ≡ (leb at x && (ltb x limit && not (covers rs x)))
unfolding gaps_from
covers-gaps_from limit at x [] s = ground arith
covers-gaps_from limit at x (r ∷ rs) s = elim (Bool-cases (ltb at r.start)) [
  | inl e ↦ ground (
    arith,
    s.1,
    covers-gaps_from limit r.stop x rs (Separated-widen (r.stop + 1) r.stop rs (omega arith) s.2),
    covers-lt (r.stop + 1) x rs s.2,
  )
  | inr e ↦ ground (
    arith,
    s.0,
    s.1,
    covers-gaps_from limit r.stop x rs (Separated-widen (r.stop + 1) r.stop rs (omega arith) s.2),
    covers-lt (r.stop + 1) x rs s.2,
  )
]

gaps_from-Separated :
    (limit at : ℕ) (rs : List Range) → Separated at rs → Separated at (gaps_from limit at rs)
unfolding gaps_from
gaps_from-Separated limit at [] s = ground arith
gaps_from-Separated limit at (r ∷ rs) s = ground (
  arith,
  s.0,
  s.1,
  gaps_above limit r.stop rs,
  Separated-widen r.stop (r.start + 1) (gaps_from limit r.stop rs) (omega (arith, s.1)) (
      gaps_from-Separated limit r.stop rs
        (Separated-widen (r.stop + 1) r.stop rs (omega arith) s.2)),
  Separated-widen r.stop at (gaps_from limit r.stop rs) (omega (arith, s.0, s.1)) (
      gaps_from-Separated limit r.stop rs
        (Separated-widen (r.stop + 1) r.stop rs (omega arith) s.2)),
)

-- `missing` lists exactly the bytes below the limit that have not arrived, as ranges in order,
-- disjoint and not empty.
pub missing_lem :
    (a : Reassembly) (limit : ℕ)
    → IsValid a
    → ((x : ℕ) → covers (missing a limit) x ≡ (ltb x limit && not (covers a.ranges x)))
      × Separated 0 (missing a limit)
unfolding missing
missing_lem a limit v = (
  λ x. covers-gaps_from limit 0 x a.ranges v.apart ∙ ground arith,
  gaps_from-Separated limit 0 a.ranges v.apart,
)

-- Every byte below `contiguous` has arrived, and the byte there has not.
pub contiguous_lem :
    (a : Reassembly)
    → IsValid a
    → ((x : ℕ) → x < contiguous a → covers a.ranges x ≡ true)
      × (covers a.ranges (contiguous a) ≡ false)
unfolding contiguous
contiguous_lem a v = go a.ranges v.apart
  where
    go :
        (rs : List Range)
        → Separated 0 rs
        → ((x : ℕ) → x < first_end rs → covers rs x ≡ true) × (covers rs (first_end rs) ≡ false)
    go [] s = (λ x h. absurd (omega arith), refl)
    go (r ∷ rs) s = elim (Bool-cases (r.start == 0)) [
      | inl e ↦
          rw e (λ x h. ground (arith, h), ground (arith, s.1, covers-lt (r.stop + 1) r.stop rs s.2))
      | inr e ↦
          rw e (λ x h. absurd (omega arith), ground (arith, s.1, covers-lt (r.stop + 1) 0 rs s.2))
    ]

last_end-ge :
    (lo : ℕ) (r : Range) (rs : List Range) → Separated lo (r ∷ rs) → lo < last_end (r ∷ rs)
last_end-ge lo r [] s = omega (arith, s.0, s.1)
last_end-ge lo r (t ∷ rs) s = omega (arith, s.0, s.1, last_end-ge (r.stop + 1) t rs s.2)

last_end_lem :
    (lo : ℕ) (rs : List Range)
    → Separated lo rs
    → ((x : ℕ) → last_end rs ≤ x → covers rs x ≡ false)
      × ((rs ≡ []) ⊎ (covers rs (last_end rs - 1) ≡ true))
last_end_lem lo [] s = (λ x h. refl, inl refl)
last_end_lem lo (r ∷ []) s = (λ x h. ground (arith, h), inr (ground (arith, s.0, s.1)))
last_end_lem lo (r ∷ t ∷ rs) s =
    let (above, below) = last_end_lem (r.stop + 1) (t ∷ rs) s.2 in
    let far = last_end-ge (r.stop + 1) t rs s.2 in
    (
      λ x h. ground (arith, above x h, far),
      inr (elim below [ inl e ↦ absurd (cc e) | inr e ↦ ground (arith, e) ]),
    )

-- No byte has arrived at `frontier` or above, and the one just below it has, unless none has.
pub frontier_lem :
    (a : Reassembly)
    → IsValid a
    → ((x : ℕ) → frontier a ≤ x → covers a.ranges x ≡ false)
      × ((a.ranges ≡ []) ⊎ (covers a.ranges (frontier a - 1) ≡ true))
unfolding frontier
frontier_lem a v = last_end_lem 0 a.ranges v.apart
