-- ===== src/Stream/Prefix.antt =====
-- client/src/transport.ts: a stream gives its reader a correct prefix of the asset.
use http.Common.{
  ℕ, zero, suc, ◌+◌, ◌-◌, ◌≤◌, ◌<◌, min, max, ◌≡◌, ◌↔◌, refl, ap, sym, ◌∙◌, Bool, true, false, some,
  List, [], ◌∷◌, ◌++◌, leb, if_cases, all, length, take, drop, get_or, arith, take_all, length-take,
  length-drop, get_or-take, get_or-drop, eq_of_get_or, Bool-cases, inl, inr,
}
use http.Wire.Bytes.{subarray}
use http.Reassembly.Ranges.{Range, covers, Separated, Below}
use http.Reassembly.{Reassembly, complete, contiguous, first_end, missing}
use http.Reassembly.Adding.{IsValid}
use http.Reassembly.Assembly.{Agrees}
use http.Reassembly.Delivery.{complete_iff}
use http.Reassembly.Gaps.{contiguous_lem, missing_lem}
use http.SeqTracker.{SeqHint}
use http.Stream.{StreamState, flush_stream, repaired, emits}

take_nil {ℓ} : {A : Type ℓ} (n : ℕ) → take {A = A} n [] ≡ []
take_nil zero = refl
take_nil (suc n) = refl

take-append-take {ℓ} :
    {A : Type ℓ} (n k m : ℕ) (xs : List A) → n + k ≡ m → take n xs ++ take k (drop n xs) ≡ take m xs
take-append-take zero k m xs h = let e : k ≡ m = omega arith in ap (λ i. take i xs) e
take-append-take (suc n) k zero xs h = absurd (omega arith)
take-append-take (suc n) k (suc m) [] h = take_nil k
take-append-take (suc n) k (suc m) (x ∷ xs) h = ap (◌∷◌ x) (take-append-take n k m xs (omega arith))

-- The reader has the first `emitted` bytes of the asset, and these have all arrived.
pub record IsPrefix (asset : List ℕ) (st : StreamState) : Type 0 where
  pub same : st.sent ≡ take st.emitted asset
  pub inside : st.emitted ≤ length asset

chunk_lem :
    (asset : List ℕ) (a : Reassembly) (from : ℕ)
    → Agrees asset a
    → subarray a.bytes from (contiguous a) ≡ take (contiguous a - from) (drop from asset)
chunk_lem asset a from g =
    eq_of_get_or 0 _ _ same_length (λ i h. (at_bytes i h ∙ here i h) ∙ sym (at_asset i h))
  where
    same_length :
        length (take (contiguous a - from) (drop from a.bytes))
        ≡ length (take (contiguous a - from) (drop from asset))
    same_length = omega (
      arith,
      g.size,
      g.valid.buffer,
      length-take (contiguous a - from) (drop from a.bytes),
      length-take (contiguous a - from) (drop from asset),
      length-drop from a.bytes,
      length-drop from asset,
    )

    below :
        (i : ℕ)
        → i < length (take (contiguous a - from) (drop from a.bytes))
        → i < contiguous a - from
    below i h = omega (arith, length-take (contiguous a - from) (drop from a.bytes))

    at_bytes :
        (i : ℕ)
        → i < length (take (contiguous a - from) (drop from a.bytes))
        → get_or (take (contiguous a - from) (drop from a.bytes)) i 0 ≡ get_or a.bytes (from + i) 0
    at_bytes i h =
        get_or-take 0 (contiguous a - from) i (drop from a.bytes) (below i h)
        ∙ get_or-drop 0 from i a.bytes

    at_asset :
        (i : ℕ)
        → i < length (take (contiguous a - from) (drop from a.bytes))
        → get_or (take (contiguous a - from) (drop from asset)) i 0 ≡ get_or asset (from + i) 0
    at_asset i h =
        get_or-take 0 (contiguous a - from) i (drop from asset) (below i h)
        ∙ get_or-drop 0 from i asset

    here :
        (i : ℕ)
        → i < length (take (contiguous a - from) (drop from a.bytes))
        → get_or a.bytes (from + i) 0 ≡ get_or asset (from + i) 0
    here i h =
        g.same (from + i) ((contiguous_lem a g.valid).0 (from + i) (omega (arith, below i h)))

contiguous-inside : (a : Reassembly) → IsValid a → contiguous a ≤ a.size
unfolding contiguous
contiguous-inside a v = go a.ranges v.inside
  where
    go : (rs : List Range) → Below a.size rs → first_end rs ≤ a.size
    go [] h = omega arith
    go (r ∷ rs) h = ground (arith, h.0)

-- A flush keeps what the reader has been given a prefix of the asset.
pub flush_stream-IsPrefix :
    (asset : List ℕ) (a : Reassembly) (st : StreamState) (behind : Bool)
    → Agrees asset a
    → IsPrefix asset st
    → IsPrefix asset (flush_stream st a behind)
unfolding flush_stream
flush_stream-IsPrefix asset a st behind g p =
    if_cases (IsPrefix asset) st.closed _ _ (λ e. p)
      (λ e. elim (Bool-cases (emits st.emitted (contiguous a - st.emitted) (complete a))) [
        | inl f ↦
            let more : st.emitted + (contiguous a - st.emitted) ≡ contiguous a = ground arith in
            rw f (record {
              same =
                  ap (λ l. l ++ subarray a.bytes st.emitted (contiguous a)) p.same
                  ∙ (ap (λ l. take st.emitted asset ++ l) (chunk_lem asset a st.emitted g)
                      ∙ take-append-take st.emitted (contiguous a - st.emitted) (contiguous a) asset
                          more);
              inside = omega (arith, contiguous-inside a g.valid, g.size);
            })
        | inr f ↦ rw f (record { same = p.same; inside = p.inside })
      ])

whole_sent :
    (asset : List ℕ) (a : Reassembly) (st : StreamState) (behind : Bool)
    → contiguous a ≡ length asset
    → complete a ≡ true
    → st.closed ≡ false
    → length asset ≤ (flush_stream st a behind).emitted
unfolding flush_stream
whole_sent asset a st behind h c e = ground arith

-- The flush of a complete transfer leaves the reader of an open stream with the whole asset.
pub flush_stream-whole :
    (asset : List ℕ) (a : Reassembly) (st : StreamState) (behind : Bool)
    → Agrees asset a
    → IsPrefix asset st
    → complete a ≡ true
    → st.closed ≡ false
    → (flush_stream st a behind).sent ≡ asset
flush_stream-whole asset a st behind g p c e =
    let all_there = (complete_iff a g.valid).0 c in
    let gap = (contiguous_lem a g.valid).1 in
    let full : contiguous a ≡ length asset =
      ground (arith, g.size, contiguous-inside a g.valid, all_there (contiguous a), gap) in
    let after = flush_stream-IsPrefix asset a st behind g p in
    after.same ∙ take_all _ asset (whole_sent asset a st behind full c e)

all_after :
    (lo from : ℕ) (gs : List Range)
    → Separated from gs
    → (all (λ g. leb g.stop lo) gs ≡ true) ↔ ((x : ℕ) → lo ≤ x → covers gs x ≡ false)
all_after lo from [] s = (λ e x h. refl, λ h. refl)
all_after lo from (g ∷ gs) s =
    let rest = all_after lo (g.stop + 1) gs s.2 in
    (
      λ e x h. ground (arith, rest.0 (ground arith) x h),
      λ h.
          ground
            (arith, s.1, h (max lo g.start), h (g.stop - 1), rest.1 (λ x k. ground (arith, h x k))),
    )

-- A hint's bytes count as repaired exactly when all of them that the asset has have arrived.
pub repaired_iff :
    (asm : Reassembly) (h : SeqHint)
    → IsValid asm
    → (repaired (some (some asm)) h ≡ true)
      ↔ ((x : ℕ) → h.start ≤ x → x < min h.stop asm.size → covers asm.ranges x ≡ true)
unfolding repaired
repaired_iff asm h v =
    let gaps = missing_lem asm (min h.stop asm.size) v in
    let same = all_after h.start 0 (missing asm (min h.stop asm.size)) gaps.1 in
    (
      λ e x k l. ground (arith, gaps.0 x, same.0 e x k),
      λ f. same.1 (λ x k. ground (arith, gaps.0 x, f x k)),
    )
