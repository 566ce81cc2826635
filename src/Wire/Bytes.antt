-- ===== src/Wire/Bytes.antt =====
-- DataView and Uint8Array as client/src/wire.ts uses them: big-endian reads, positional writes
-- into a zero-filled buffer, subarrays.
pub mod Writing
pub mod Words
use http.Common.{
  ℕ, zero, suc, ◌+◌, ◌-◌, ◌*◌, ◌/◌, ◌%◌, ◌^◌, ◌≤◌, ◌<◌, ◌≡◌, refl, ap, ◌∙◌, sym, List, [], ◌∷◌,
  ◌++◌, arith, length, get_or, take, drop, replicate, length-append, append_assoc, append-nil, All,
}

-- A read; the code only reads below the length, where the default is not used.
abbrev pub get_u8 : List ℕ → ℕ → ℕ
get_u8 b i = get_or b i 0

unfoldable pub get_u16 : List ℕ → ℕ → ℕ
get_u16 b i = get_u8 b i * 256 + get_u8 b (i + 1)

unfoldable pub get_u32 : List ℕ → ℕ → ℕ
get_u32 b i = get_u16 b i * 65536 + get_u16 b (i + 2)

unfoldable pub get_u64 : List ℕ → ℕ → ℕ
get_u64 b i = get_u32 b i * 2 ^ 32 + get_u32 b (i + 4)

-- What setUint8, setUint16, setUint32 and setBigUint64 store: the value modulo the width.
abbrev pub bytes_u8 : ℕ → List ℕ
bytes_u8 v = v % 256 ∷ []

abbrev pub bytes_u16 : ℕ → List ℕ
bytes_u16 v = v / 256 % 256 ∷ v % 256 ∷ []

abbrev pub bytes_u32 : ℕ → List ℕ
bytes_u32 v = bytes_u16 (v / 65536) ++ bytes_u16 (v % 65536)

abbrev pub bytes_u64 : ℕ → List ℕ
bytes_u64 v = bytes_u32 (v / 2 ^ 32) ++ bytes_u32 (v % 2 ^ 32)

-- `b.set(src, at)`; every write of the code lies inside the buffer.
unfoldable pub write : List ℕ → ℕ → List ℕ → List ℕ
write [] at src = []
write (x ∷ b) zero [] = x ∷ b
write (x ∷ b) zero (y ∷ src) = y ∷ write b zero src
write (x ∷ b) (suc at) src = x ∷ write b at src

-- `b.subarray(from)` and `b.subarray(from, to)`.
abbrev pub sub_from : List ℕ → ℕ → List ℕ
sub_from b from = drop from b

abbrev pub subarray : List ℕ → ℕ → ℕ → List ℕ
subarray b from to = take (to - from) (drop from b)
