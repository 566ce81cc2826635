-- ===== src/Wire/Bytes/Words.antt =====
-- Reading back the big-endian words that were written.
use http.Common.{
  ℕ, zero, suc, ◌+◌, ◌*◌, ◌/◌, ◌%◌, ◌^◌, ◌<◌, ◌≡◌, refl, ap, ◌∙◌, List, [], ◌∷◌, ◌++◌, arith,
  get_or, drop,
}
use http.Wire.Bytes.{get_u8, get_u16, get_u32, get_u64, bytes_u8, bytes_u16, bytes_u32, bytes_u64}

get_or-drop : (b : List ℕ) (i j : ℕ) → get_or b (i + j) 0 ≡ get_or (drop i b) j 0
get_or-drop b zero j = let e : 0 + j ≡ j = omega arith in rw e
get_or-drop [] (suc i) j = refl
get_or-drop (x ∷ b) (suc i) j =
    let e : suc i + j ≡ suc (i + j) = omega arith in rw e (get_or-drop b i j)

-- Reads at `at` look at the bytes from there on.
get_u8-drop : (b : List ℕ) (at i : ℕ) → get_u8 b (at + i) ≡ get_u8 (drop at b) i
get_u8-drop b at i = get_or-drop b at i

value_u16 : ℕ → ℕ → ℕ
value_u16 hi lo = hi * 256 + lo

bytes_u16_value : (v : ℕ) → v < 65536 → v / 256 % 256 * 256 + v % 256 ≡ v
bytes_u16_value v h = omega arith

module _ (b : List ℕ) (at : ℕ) (tail : List ℕ) where
  pub read_u8 : (v : ℕ) → v < 256 → drop at b ≡ bytes_u8 v ++ tail → get_u8 b at ≡ v
  read_u8 v h e = at_zero ∙ ap (λ l. get_or l 0 0) e ∙ omega arith
    where
      at_zero : get_or b at 0 ≡ get_or (drop at b) 0 0
      at_zero = let z : at ≡ at + 0 = omega arith in ap (λ i. get_or b i 0) z ∙ get_or-drop b at 0

  pub read_u16 : (v : ℕ) → v < 65536 → drop at b ≡ bytes_u16 v ++ tail → get_u16 b at ≡ v
  unfolding get_u16
  read_u16 v h e = omega (arith, first, get_or-drop b at 1, ap (λ l. get_or l 1 0) e)
    where
      first : get_or b at 0 ≡ v / 256 % 256
      first =
          let z : at ≡ at + 0 = omega arith in
          ap (λ i. get_or b i 0) z ∙ get_or-drop b at 0 ∙ ap (λ l. get_or l 0 0) e

drop-drop : (b : List ℕ) (i j : ℕ) → drop (i + j) b ≡ drop j (drop i b)
drop-drop b zero j = let e : 0 + j ≡ j = omega arith in rw e
drop-drop [] (suc i) zero = let e : suc i + 0 ≡ suc i = omega arith in rw e
drop-drop [] (suc i) (suc j) = let e : suc i + suc j ≡ suc (i + suc j) = omega arith in rw e
drop-drop (x ∷ b) (suc i) j =
    let e : suc i + j ≡ suc (i + j) = omega arith in rw e (drop-drop b i j)

pub read_u32 :
    (b : List ℕ) (at : ℕ) (tail : List ℕ) (v : ℕ)
    → v < 2 ^ 32
    → drop at b ≡ bytes_u32 v ++ tail
    → get_u32 b at ≡ v
unfolding get_u32
read_u32 b at tail v h e =
    let hi : get_u16 b at ≡ v / 65536 =
      read_u16 b at (bytes_u16 (v % 65536) ++ tail) (v / 65536) (omega arith) e in
    let lo : get_u16 b (at + 2) ≡ v % 65536 =
      read_u16 b (at + 2) tail (v % 65536) (omega arith) (drop-drop b at 2 ∙ ap (drop 2) e) in
    omega (arith, hi, lo)

pub read_u64 :
    (b : List ℕ) (at : ℕ) (tail : List ℕ) (v : ℕ)
    → v < 2 ^ 64
    → drop at b ≡ bytes_u64 v ++ tail
    → get_u64 b at ≡ v
unfolding get_u64
read_u64 b at tail v h e =
    let hi : get_u32 b at ≡ v / 2 ^ 32 =
      read_u32 b at (bytes_u32 (v % 2 ^ 32) ++ tail) (v / 2 ^ 32) (omega arith) e in
    let lo : get_u32 b (at + 4) ≡ v % 2 ^ 32 =
      read_u32 b (at + 4) tail (v % 2 ^ 32) (omega arith) (drop-drop b at 4 ∙ ap (drop 4) e) in
    omega (arith, hi, lo)
