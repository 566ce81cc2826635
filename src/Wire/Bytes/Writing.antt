-- ===== src/Wire/Bytes/Writing.antt =====
-- Writing a zero-filled buffer from front to back appends.
use http.Common.{
  ℕ, zero, suc, ◌+◌, ◌-◌, ◌≤◌, ◌≡◌, refl, ap, ◌∙◌, List, [], ◌∷◌, ◌++◌, arith, length, replicate,
  append-nil, get_or, ◌⊎◌, ◌<◌,
}
use http.Wire.Bytes.{write}

write_zeros :
    (src : List ℕ) (n : ℕ)
    → length src ≤ n
    → write (replicate n 0) 0 src ≡ src ++ replicate (n - length src) 0
unfolding write
write_zeros [] zero h = refl
write_zeros [] (suc n) h = let e : suc n - 0 ≡ suc n = omega arith in rw e
write_zeros (y ∷ src) zero h = absurd (omega arith)
write_zeros (y ∷ src) (suc n) h =
    let e : suc n - suc (length src) ≡ n - length src = omega arith in
    rw e (ap (◌∷◌ y) (write_zeros src n (omega arith)))

-- One write behind what is written already, with `rest` bytes still to come.
pub write_next :
    (w src : List ℕ) (at n rest : ℕ)
    → at ≡ length w
    → n ≡ length src + rest
    → write (w ++ replicate n 0) at src ≡ (w ++ src) ++ replicate rest 0
unfolding write
write_next [] src zero n rest ha hn =
    let e : n - length src ≡ rest = omega arith in rw (← e) (write_zeros src n (omega arith))
write_next [] src (suc at) n rest ha hn = absurd (omega arith)
write_next (x ∷ w) src zero n rest ha hn = absurd (omega arith)
write_next (x ∷ w) src (suc at) n rest ha hn =
    ap (◌∷◌ x) (write_next w src at n rest (omega arith) hn)

-- The last write fills the buffer.
pub write_last :
    (w src : List ℕ) (at n : ℕ)
    → at ≡ length w
    → n ≡ length src
    → write (w ++ replicate n 0) at src ≡ w ++ src
write_last w src at n ha hn = write_next w src at n 0 ha (omega arith) ∙ append-nil (w ++ src)

pub length-write : (b src : List ℕ) (at : ℕ) → length (write b at src) ≡ length b
unfolding write
length-write [] src at = refl
length-write (x ∷ b) [] zero = refl
length-write (x ∷ b) (y ∷ src) zero = ap suc (length-write b src zero)
length-write (x ∷ b) src (suc at) = ap suc (length-write b src at)

pub write_none : (b : List ℕ) (at : ℕ) → write b at [] ≡ b
unfolding write
write_none [] at = refl
write_none (x ∷ b) zero = refl
write_none (x ∷ b) (suc at) = ap (◌∷◌ x) (write_none b at)

-- A read after a write: the new byte inside, the old one outside.
pub get_or-write_in :
    (b src : List ℕ) (at i : ℕ)
    → at + length src ≤ length b
    → i < length src
    → get_or (write b at src) (at + i) 0 ≡ get_or src i 0
unfolding write
get_or-write_in b [] at i h k = absurd (omega arith)
get_or-write_in [] (y ∷ src) at i h k = absurd (omega arith)
get_or-write_in (x ∷ b) (y ∷ src) zero zero h k = refl
get_or-write_in (x ∷ b) (y ∷ src) zero (suc i) h k =
    let e : zero + suc i ≡ suc (zero + i) = omega arith in
    rw e (get_or-write_in b src zero i (omega arith) (omega arith))
get_or-write_in (x ∷ b) (y ∷ src) (suc at) i h k =
    let e : suc at + i ≡ suc (at + i) = omega arith in
    rw e (get_or-write_in b (y ∷ src) at i (omega arith) k)

pub get_or-write_out :
    (b src : List ℕ) (at i : ℕ)
    → (i < at) ⊎ (at + length src ≤ i)
    → get_or (write b at src) i 0 ≡ get_or b i 0
unfolding write
get_or-write_out [] src at i h = refl
get_or-write_out (x ∷ b) [] zero i h = refl
get_or-write_out (x ∷ b) (y ∷ src) zero zero h = absurd (omega arith)
get_or-write_out (x ∷ b) (y ∷ src) zero (suc i) h = get_or-write_out b src zero i (omega arith)
get_or-write_out (x ∷ b) src (suc at) zero h = refl
get_or-write_out (x ∷ b) src (suc at) (suc i) h = get_or-write_out b src at i (omega arith)
