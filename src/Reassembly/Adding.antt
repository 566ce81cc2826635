-- ===== src/Reassembly/Adding.antt =====
-- What one `add` does: the invariant, the set of bytes received, and how many of them are new.
use http.Common.{
  ℕ, ◌+◌, ◌-◌, ◌≤◌, ◌<◌, ◌≡◌, refl, sym, ◌∙◌, ◌↔◌, subst, subst₂, min, false, ◌||◌, Option, none,
  some, List, [], ◌∷◌, arith, length, length-replicate,
}
use http.Wire.Bytes.{write}
use http.Wire.Bytes.Writing.{length-write, write_none}
use http.Reassembly.Ranges.{Range, insert_range, within, covers, total, Separated, Below}
use http.Reassembly.Insertion.{Inserted, insert_range-Inserted}
use http.Reassembly.{Reassembly, init, add}

-- The ranges are in order, disjoint and apart, lie inside the asset, and hold `received` bytes.
pub record IsValid (a : Reassembly) : Type 0 where
  pub apart : Separated 0 a.ranges
  pub inside : Below a.size a.ranges
  pub counted : a.received ≡ total a.ranges
  pub buffer : length a.bytes ≡ a.size

pub init-IsValid : (size : ℕ) → IsValid (init size)
unfolding init
init-IsValid size = record {
  apart = tt;
  inside = tt;
  counted = refl;
  buffer = length-replicate size 0;
}

pub total-Below : (lo hi : ℕ) (rs : List Range) → Separated lo rs → Below hi rs → total rs ≤ hi - lo
total-Below lo hi [] s b = omega arith
total-Below lo hi (r ∷ rs) s b =
    omega (arith, total-Below (r.stop + 1) hi rs s.2 b.1, s.0, s.1, b.0)

-- An `add` that fits.
pub record Added (a : Reassembly) (offset : ℕ) (payload : List ℕ) (n : ℕ) (b : Reassembly)
    : Type 0 where
  pub fits : offset + length payload ≤ a.size
  pub same_size : b.size ≡ a.size
  pub content : b.bytes ≡ write a.bytes offset payload
  pub bytes :
      (x : ℕ)
      → covers b.ranges x ≡ (
          within (record { start = offset; stop = offset + length payload }) x || covers a.ranges x)
  pub fresh : total b.ranges ≡ total a.ranges + n
  pub at_most : n ≤ length payload
  pub valid : IsValid b

empty_within : (offset x : ℕ) → within (record { start = offset; stop = offset }) x ≡ false
empty_within offset x = ground arith

-- An empty payload changes nothing.
add_nothing : (a : Reassembly) (offset : ℕ) → offset ≤ a.size → IsValid a → Added a offset [] 0 a
add_nothing a offset h v = record {
  fits = omega arith;
  same_size = refl;
  content = sym (write_none a.bytes offset);
  bytes = λ x. ground arith;
  fresh = omega arith;
  at_most = omega arith;
  valid = v;
}

-- Bytes are merged: the ranges stay well formed, and the count of new bytes is right.
add_bytes :
    (a : Reassembly) (offset : ℕ) (payload : List ℕ) (m : ℕ × List Range)
    → 0 < length payload
    → offset + length payload ≤ a.size
    → IsValid a
    → Inserted offset (offset + length payload) 0 a.ranges m
    → Added a offset payload (length payload - m.0) (record a {
      bytes = write a.bytes offset payload;
      ranges = m.1;
      received = a.received + (length payload - m.0);
    })
add_bytes a offset payload m h k v i = record {
  fits = k;
  same_size = refl;
  content = refl;
  bytes = i.bytes;
  fresh = omega (arith, i.counted, i.less);
  at_most = omega arith;
  valid = record {
    apart = subst (λ n. Separated n m.1) least i.apart;
    inside = i.bounded a.size k v.inside;
    counted = omega (arith, i.counted, i.less, v.counted);
    buffer = length-write a.bytes payload offset ∙ v.buffer;
  };
}
  where
    least : min 0 offset ≡ 0
    least = omega arith

add_fits :
    (a : Reassembly) (offset : ℕ) (payload : List ℕ) (r : ℕ × Reassembly)
    → add a offset payload ≡ some r
    → offset + length payload ≤ a.size
unfolding add
add_fits a offset payload r e = ground arith

add_empty : (a : Reassembly) (offset : ℕ) → offset + 0 ≤ a.size → add a offset [] ≡ some (0, a)
unfolding add
add_empty a offset h = ground arith

add_fitting :
    (a : Reassembly) (offset y : ℕ) (ys : List ℕ)
    → offset + length (y ∷ ys) ≤ a.size
    → let payload : List ℕ = y ∷ ys in
      let m = insert_range offset (offset + length payload) a.ranges in
      add a offset payload
      ≡ some (
        length payload - m.0,
        record a {
          bytes = write a.bytes offset payload;
          ranges = m.1;
          received = a.received + (length payload - m.0);
        },
      )
unfolding add
add_fitting a offset y ys h = ground arith

some_pair {ℓ} :
    {A B : Type ℓ} (P : A → B → Type ℓ) {a c : A} {b d : B}
    → ◌≡◌ {A = Option (A × B)} (some (a, b)) (some (c, d))
    → P a b
    → P c d
some_pair P {a} {c} {b} {d} e h = let f : a ≡ c = cc in let g : b ≡ d = cc in subst₂ P f g h

-- A payload that fits is written at its offset, the ranges gain exactly its bytes, and the answer
-- is how many bytes they gained; the ranges stay well formed.
pub add-Added :
    (a : Reassembly) (offset : ℕ) (payload : List ℕ) (n : ℕ) (b : Reassembly)
    → IsValid a
    → add a offset payload ≡ some (n, b)
    → Added a offset payload n b
add-Added a offset [] n b v e =
    let fits = add_fits a offset [] _ e in
    some_pair (Added a offset []) (sym (add_empty a offset fits) ∙ e)
      (add_nothing a offset (omega arith) v)
add-Added a offset (y ∷ ys) n b v e =
    let fits = add_fits a offset (y ∷ ys) _ e in
    some_pair (Added a offset (y ∷ ys)) (sym (add_fitting a offset y ys fits) ∙ e) (
      add_bytes a offset (y ∷ ys) _ (omega arith) fits v
        (insert_range-Inserted offset _ 0 a.ranges (omega arith) v.apart))

-- `add` answers exactly when the payload fits inside the asset.
pub add_iff :
    (a : Reassembly) (offset : ℕ) (payload : List ℕ)
    → (add a offset payload ≡ none) ↔ (a.size < offset + length payload)
unfolding add
add_iff a offset payload = ground arith
