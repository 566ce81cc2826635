-- ===== src/Reassembly/Assembly.antt =====
-- Payloads of one asset, in any order and any number of times: what has arrived is right, and a
-- complete reassembly is the asset.
use http.Common.{
  ℕ, ◌+◌, ◌-◌, ◌≤◌, ◌<◌, ◌≡◌, ap, ◌∙◌, inl, inr, subst, true, ◌||◌, Bool-cases, List, arith, length,
  length-take, length-drop, get_or, get_or-take, get_or-drop, drop,
}
use http.Wire.Bytes.{write, subarray}
use http.Wire.Bytes.Writing.{get_or-write_in, get_or-write_out}
use http.Reassembly.Ranges.{Range, within, covers}
use http.Reassembly.Adding.{IsValid, Added}
use http.Reassembly.{Reassembly}

-- What has arrived agrees with the asset.
pub record Agrees (asset : List ℕ) (a : Reassembly) : Type 0 where
  pub valid : IsValid a
  pub size : a.size ≡ length asset
  pub same : (x : ℕ) → covers a.ranges x ≡ true → get_or a.bytes x 0 ≡ get_or asset x 0

-- The bytes [start, stop) of the asset, as a DATA packet brings them.
abbrev pub piece : List ℕ → Range → List ℕ
piece asset r = subarray asset r.start r.stop

abbrev pub IsPiece : List ℕ → Range → Type 0
IsPiece asset r = (r.start ≤ r.stop) × (r.stop ≤ length asset)

pub length-piece :
    (asset : List ℕ) (r : Range) → IsPiece asset r → length (piece asset r) ≡ r.stop - r.start
length-piece asset r h =
    omega (arith, length-take (r.stop - r.start) (drop r.start asset), length-drop r.start asset)

get_or-piece :
    (asset : List ℕ) (r : Range) (i : ℕ)
    → i < r.stop - r.start
    → get_or (piece asset r) i 0 ≡ get_or asset (r.start + i) 0
get_or-piece asset r i h =
    get_or-take 0 (r.stop - r.start) i (drop r.start asset) h ∙ get_or-drop 0 r.start i asset

get_or-write-piece :
    (asset b : List ℕ) (r : Range) (x : ℕ)
    → IsPiece asset r
    → length b ≡ length asset
    → within r x ≡ true
    → get_or (write b r.start (piece asset r)) x 0 ≡ get_or asset x 0
get_or-write-piece asset b r x h n w =
    let e : r.start + (x - r.start) ≡ x = ground arith in
    subst (λ k. get_or (write b r.start (piece asset r)) k 0 ≡ get_or asset k 0) e
      (get_or-write_in b (piece asset r) r.start (x - r.start)
          (ground (arith, length-piece asset r h)) (ground (arith, length-piece asset r h))
        ∙ get_or-piece asset r (x - r.start) (ground arith))

-- One piece.
pub add-Agrees :
    (asset : List ℕ) (r : Range) (a b : Reassembly) (n : ℕ)
    → IsPiece asset r
    → Agrees asset a
    → Added a r.start (piece asset r) n b
    → Agrees asset b × ((x : ℕ) → covers b.ranges x ≡ (within r x || covers a.ranges x))
add-Agrees asset r a b n h g d = (
  record {
    valid = d.valid;
    size = d.same_size ∙ g.size;
    same = λ x c. elim (Bool-cases (within r x)) [
      | inl w ↦
          ap (λ l. get_or l x 0) d.content
          ∙ get_or-write-piece asset a.bytes r x h (g.valid.buffer ∙ g.size) w
      | inr w ↦
          ap (λ l. get_or l x 0) d.content
          ∙ get_or-write_out a.bytes (piece asset r) r.start x
              (ground (arith, length-piece asset r h))
          ∙ g.same x (ground (arith, c, union x))
    ];
  },
  union,
)
  where
    end : r.start + length (piece asset r) ≡ r.stop
    end = omega (arith, length-piece asset r h)

    union : (x : ℕ) → covers b.ranges x ≡ (within r x || covers a.ranges x)
    union x =
        subst
          (λ k.
            covers b.ranges x
            ≡ (within (record { start = r.start; stop = k }) x || covers a.ranges x))
          end (d.bytes x)
