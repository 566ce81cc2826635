-- ===== src/Reassembly.antt =====
-- client/src/reassembly.ts, class Reassembly: the received byte ranges of one asset and its bytes.
pub mod Ranges
pub mod Inserting
pub mod Adding
pub mod Counting
pub mod Assembly
pub mod Delivery
pub mod Gaps
pub mod Insertion
use http.Common.{
  ℕ, zero, suc, ◌+◌, ◌-◌, ◌≤◌, ◌<◌, ◌≡◌, min, max, Bool, true, false, Option, none, some, List, [],
  ◌∷◌, ◌++◌, ltb, leb, ◌==◌, if◌then◌else◌, length, replicate,
}
use http.Wire.Bytes.{write}
use Ranges.{Range, insert_range, gaps_from}

pub record Reassembly : Type 0 where
  pub size : ℕ
  pub bytes : List ℕ
  pub ranges : List Range
  pub received : ℕ

unfoldable pub init : ℕ → Reassembly
init size = record { size = size; bytes = replicate size 0; ranges = []; received = 0 }

unfoldable pub complete : Reassembly → Bool
complete a = a.received == a.size

abbrev pub first_end : List Range → ℕ
first_end [] = 0
first_end (r ∷ rs) = if r.start == 0 then r.stop else 0

unfoldable pub contiguous : Reassembly → ℕ
contiguous a = first_end a.ranges

abbrev pub last_end : List Range → ℕ
last_end [] = 0
last_end (r ∷ []) = r.stop
last_end (r ∷ s ∷ rs) = last_end (s ∷ rs)

unfoldable pub frontier : Reassembly → ℕ
frontier a = last_end a.ranges

-- `add` answers how many bytes were new; `none` stands for its RangeError. An offset is not
-- negative.
unfoldable pub add : Reassembly → ℕ → List ℕ → Option (ℕ × Reassembly)
add a offset payload =
    let stop = offset + length payload in
    let merged = insert_range offset stop a.ranges in
    let fresh = length payload - merged.0 in
    if ltb a.size stop
    then none
    else (if length payload == 0
        then some (0, a)
        else some (
          fresh,
          record a {
            bytes = write a.bytes offset payload;
            ranges = merged.1;
            received = a.received + fresh;
          },
        ))

unfoldable pub missing : Reassembly → ℕ → List Range
missing a limit = gaps_from limit 0 a.ranges
