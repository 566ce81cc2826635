-- ===== src/Wire/RoundTrip/Layout.antt =====
-- The bytes that encode writes, in a row, and the common header read back.
use http.Common.{
  ℕ, ◌+◌, ◌^◌, ◌<◌, ◌≡◌, refl, ap, ◌∙◌, sym, List, [], ◌++◌, arith, length, replicate, subst,
  length-append, append_assoc,
}
use http.Wire.Types.{Result, ok, Packet}
use http.Wire.Bytes.{bytes_u8, bytes_u64, write}
use http.Wire.Bytes.Writing.{write_next, write_last}
use http.Wire.Bytes.Words.{read_u64, read_u8}
use http.Wire.Checks.{Utf8}
use http.Wire.Encode.{header}
use http.Wire.Decode.{decode, decode_body}

abbrev pub head : ℕ → ℕ → List ℕ
head type rpc_id = bytes_u8 type ++ bytes_u64 rpc_id

pub header-zeros :
    (type rpc_id len rest : ℕ)
    → len ≡ 9 + rest
    → header type rpc_id len ≡ head type rpc_id ++ replicate rest 0
unfolding header
header-zeros type rpc_id len rest h =
    ap (λ b. write b 1 (bytes_u64 rpc_id))
      (write_next [] (bytes_u8 type) 0 len (8 + rest) (omega arith) (omega arith))
    ∙ write_next (bytes_u8 type) (bytes_u64 rpc_id) 1 (8 + rest) rest (omega arith) (omega arith)

-- The header comes back, whatever follows it.
pub decode-head :
    (u : Utf8) (type rpc_id : ℕ) (body : List ℕ)
    → type < 256
    → rpc_id < 2 ^ 64
    → decode u (head type rpc_id ++ body) ≡ decode_body u (head type rpc_id ++ body) rpc_id type
unfolding decode
decode-head u type rpc_id body ht hr = ground (
  arith,
  read_u64 (head type rpc_id ++ body) 1 body rpc_id hr refl,
  read_u8 (head type rpc_id ++ body) 0 (bytes_u64 rpc_id ++ body) type ht refl,
)

-- The packet `p` comes back from `b`, which begins with its header.
abbrev pub Trip : ℕ → ℕ → (List ℕ → ℕ → Result Packet) → Packet → List ℕ → Type 0
Trip type rpc_id decoder p b =
    (body : List ℕ) × (b ≡ head type rpc_id ++ body) × (decoder b rpc_id ≡ ok p)

pub Trip-of :
    (type rpc_id : ℕ) (decoder : List ℕ → ℕ → Result Packet) (p : Packet) (body b : List ℕ)
    → decoder (head type rpc_id ++ body) rpc_id ≡ ok p
    → head type rpc_id ++ body ≡ b
    → Trip type rpc_id decoder p b
Trip-of type rpc_id decoder p body b h e = (body, sym e, subst (λ c. decoder c rpc_id ≡ ok p) e h)

-- One, two and more words written behind the header.
pub one_word :
    (type rpc_id len : ℕ) (x : List ℕ)
    → len ≡ 9 + length x
    → write (header type rpc_id len) 9 x ≡ head type rpc_id ++ x
one_word type rpc_id len x h =
    ap (λ b. write b 9 x) (header-zeros type rpc_id len (length x) h)
    ∙ write_last (head type rpc_id) x 9 (length x) (omega arith) refl

module _ (type rpc_id : ℕ) (x : List ℕ) (hx : length x ≡ 4) where
  first_word :
      (len rest : ℕ)
      → len ≡ 13 + rest
      → write (header type rpc_id len) 9 x ≡ (head type rpc_id ++ x) ++ replicate rest 0
  first_word len rest h =
      ap (λ b. write b 9 x) (header-zeros type rpc_id len (4 + rest) (omega arith))
      ∙ write_next (head type rpc_id) x 9 (4 + rest) rest (omega arith) (omega arith)

  pub two_words :
      (len : ℕ) (y : List ℕ)
      → len ≡ 13 + length y
      → write (write (header type rpc_id len) 9 x) 13 y ≡ head type rpc_id ++ (x ++ y)
  two_words len y h =
      ap (λ b. write b 13 y) (first_word len (length y) h)
      ∙ write_last (head type rpc_id ++ x) y 13 (length y) (omega arith) refl

  second_word :
      (len rest : ℕ) (y : List ℕ)
      → len ≡ 13 + length y + rest
      → write (write (header type rpc_id len) 9 x) 13 y
        ≡ (head type rpc_id ++ (x ++ y)) ++ replicate rest 0
  second_word len rest y h =
      ap (λ b. write b 13 y) (first_word len (length y + rest) (omega arith))
      ∙ write_next (head type rpc_id ++ x) y 13 (length y + rest) rest (omega arith) (omega arith)

  pub three_words :
      (len at : ℕ) (y z : List ℕ)
      → at ≡ 13 + length y
      → len ≡ at + length z
      → write (write (write (header type rpc_id len) 9 x) 13 y) at z
        ≡ head type rpc_id ++ (x ++ (y ++ z))
  three_words len at y z ha h =
      ap (λ b. write b at z) (second_word len (length z) y (omega arith))
      ∙ write_last (head type rpc_id ++ (x ++ y)) z at (length z) (omega (arith, length-append x y))
          refl
      ∙ ap (λ l. head type rpc_id ++ l) (append_assoc x y z)

  pub four_words :
      (len : ℕ) (y z w : List ℕ)
      → length y ≡ 4
      → length z ≡ 4
      → len ≡ 21 + length w
      → write (write (write (write (header type rpc_id len) 9 x) 13 y) 17 z) 21 w
        ≡ head type rpc_id ++ (x ++ (y ++ (z ++ w)))
  four_words len y z w hy hz h =
      ap (λ b. write (write b 17 z) 21 w) (second_word len (4 + length w) y (omega arith))
      ∙ ap (λ b. write b 21 w)
          (write_next (head type rpc_id ++ (x ++ y)) z 17 (4 + length w) (length w)
            (omega (arith, length-append x y)) (omega arith))
      ∙ write_last ((head type rpc_id ++ (x ++ y)) ++ z) w 21 (length w)
          (omega (arith, length-append x y, length-append (x ++ y) z)) refl
      ∙ ap (λ l. head type rpc_id ++ l) (append_assoc (x ++ y) z w ∙ append_assoc x y (z ++ w))
