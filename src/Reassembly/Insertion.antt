-- ===== src/Reassembly/Insertion.antt =====
-- `add`'s merge as a whole, against the set of bytes.
use http.Common.{
  ℕ, ◌+◌, ◌-◌, ◌≤◌, ◌<◌, ◌≡◌, refl, ap, ◌∙◌, inl, inr, min, Bool, ◌||◌, Bool-cases, List, [], ◌∷◌,
  arith, ltb,
}
use http.Reassembly.Ranges.{
  Range, skip, absorb, insert_range, within, covers, total, Separated, Below,
}
use http.Reassembly.Inserting.{
  Sweeping, Reaching, merged, covers-absorb, merged-Separated, merged-Below, total-absorb,
  covered-le,
}

-- What holds of the merge of [offset, end) into `rs`: `m` is how much was covered and the result.
pub record Inserted (offset end lo : ℕ) (rs : List Range) (m : ℕ × List Range) : Type 0 where
  pub bytes :
      (x : ℕ) → covers m.1 x ≡ (within (record { start = offset; stop = end }) x || covers rs x)
  pub apart : Separated (min lo offset) m.1
  pub counted : total m.1 + m.0 ≡ (end - offset) + total rs
  pub less : m.0 ≤ end - offset
  pub bounded : (hi : ℕ) → end ≤ hi → Below hi rs → Below hi m.1

Separated-Reaching :
    (offset lo : ℕ) (rs : List Range) → Separated lo rs → offset ≤ lo → Reaching offset rs
Separated-Reaching offset lo [] s h = tt
Separated-Reaching offset lo (r ∷ rs) s h = (
  omega (arith, s.0, s.1),
  Separated-Reaching offset (r.stop + 1) rs s.2 (omega (arith, s.0, s.1)),
)

-- From the first range that reaches `offset` on, only the second loop runs.
absorb-Inserted :
    (offset end lo : ℕ) (rs : List Range)
    → offset < end
    → Separated lo rs
    → Reaching offset rs
    → Inserted offset end lo rs
        ((absorb offset end 0 offset end rs).covered, merged (absorb offset end 0 offset end rs))
absorb-Inserted offset end lo rs h s g =
    let v : Sweeping offset end offset end lo = record {
      nonempty = h;
      left = omega arith;
      right = omega arith;
      left_done = inl refl;
      right_done = inl refl;
    } in
    record {
      bytes = λ x. covers-absorb offset end 0 offset end lo rs x v s g;
      apart =
          merged-Separated offset end 0 offset end lo (min lo offset) rs v s g (omega arith)
            (omega arith);
      counted = omega (arith, total-absorb offset end 0 offset end lo rs v s g);
      less = omega (arith, covered-le offset end 0 offset end lo rs s);
      bounded = λ hi k b. merged-Below offset end 0 offset end hi rs k b;
    }

swap_or : (a b c : Bool) → (a || (b || c)) ≡ (b || (a || c))
swap_or a b c = ground arith

-- A lower bound may be lowered.
pub Separated-widen : (n l : ℕ) (rs : List Range) → l ≤ n → Separated n rs → Separated l rs
Separated-widen n l [] h s = tt
Separated-widen n l (r ∷ rs) h s = (omega (arith, s.0), s.1, s.2)

-- A range that ends before `offset` stays in front.
skip-Inserted :
    (offset end lo : ℕ) (r : Range) (rs : List Range) (m : ℕ × List Range)
    → offset < end
    → r.stop < offset
    → lo ≤ r.start
    → r.start < r.stop
    → Inserted offset end (r.stop + 1) rs m
    → Inserted offset end lo (r ∷ rs) (m.0, r ∷ m.1)
skip-Inserted offset end lo r rs m h k lower size i = record {
  bytes = λ x.
      ap (λ c. within r x || c) (i.bytes x)
      ∙ swap_or (within r x) (within (record { start = offset; stop = end }) x) (covers rs x);
  apart = (
    omega arith,
    size,
    Separated-widen (min (r.stop + 1) offset) (r.stop + 1) m.1 (omega arith) i.apart,
  );
  counted = omega (arith, i.counted);
  less = i.less;
  bounded = λ hi e b. (b.0, i.bounded hi e b.1);
}

pub insert_range-Inserted :
    (offset end lo : ℕ) (rs : List Range)
    → offset < end
    → Separated lo rs
    → Inserted offset end lo rs (insert_range offset end rs)
unfolding insert_range skip
insert_range-Inserted offset end lo [] h s = absorb-Inserted offset end lo [] h s tt
insert_range-Inserted offset end lo (r ∷ rs) h s = elim (Bool-cases (ltb r.stop offset)) [
  | inl e ↦ rw e (
      skip-Inserted offset end lo r rs _ h (ground arith) s.0 s.1
        (insert_range-Inserted offset end (r.stop + 1) rs h s.2))
  | inr e ↦ rw e (
      absorb-Inserted offset end lo (r ∷ rs) h s
        (ground arith, Separated-Reaching offset (r.stop + 1) rs s.2 (ground arith)))
]
