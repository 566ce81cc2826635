-- ===== src/Reassembly/Delivery.antt =====
-- Delivery of the payloads of one asset, one after the other, from an empty reassembly.
use http.Common.{
  ℕ, ◌<◌, ◌≡◌, ◌↔◌, refl, ap, sym, ◌∙◌, inl, inr, subst, Bool, true, false, ◌||◌, Option, none,
  some, Option-cases, List, [], ◌∷◌, arith, length, get_or, eq_of_get_or, All,
}
use http.Reassembly.Ranges.{Range, within, covers}
use http.Reassembly.Adding.{IsValid, add-Added, add_iff, init-IsValid}
use http.Reassembly.Counting.{covers_of_total, total_of_covers}
use http.Reassembly.{Reassembly, init, add, complete}
use http.Reassembly.Assembly.{Agrees, piece, IsPiece, length-piece, add-Agrees}

-- DATA payloads delivered one after the other; `none` if one does not fit.
unfoldable pub deliver : List ℕ → Reassembly → List Range → Option Reassembly
deliver asset a [] = some a
deliver asset a (r ∷ rs) = elim (add a r.start (piece asset r)) [
  | none ↦ none
  | some (n, b) ↦ deliver asset b rs
]

add-fits :
    (asset : List ℕ) (r : Range) (a : Reassembly)
    → IsPiece asset r
    → Agrees asset a
    → (n : ℕ) × (b : Reassembly) × (add a r.start (piece asset r) ≡ some (n, b))
add-fits asset r a h g = elim (Option-cases (add a r.start (piece asset r))) [
  | inl e ↦
      absurd
        (omega (arith, (add_iff a r.start (piece asset r)).0 e, length-piece asset r h, g.size))
  | inr (m, e) ↦ (m.0, m.1, e)
]

-- What a list of pieces holds.
abbrev pub brings : List Range → ℕ → Bool
brings [] x = false
brings (r ∷ rs) x = within r x || brings rs x

deliver_from :
    (asset : List ℕ) (rs : List Range) (a : Reassembly)
    → All (IsPiece asset) rs
    → Agrees asset a
    → (b : Reassembly) × (deliver asset a rs ≡ some b)
      × Agrees asset b
      × ((x : ℕ) → covers b.ranges x ≡ (covers a.ranges x || brings rs x))
unfolding deliver
deliver_from asset [] a h g = (a, refl, g, λ x. ground arith)
deliver_from asset (r ∷ rs) a h g =
    let (n, b, e) = add-fits asset r a h.0 g in
    let (g', union) =
      add-Agrees asset r a b n h.0 g (add-Added a r.start (piece asset r) n b g.valid e) in
    let (c, run, g'', all) = deliver_from asset rs b h.1 g' in
    (
      c,
      rw (e, deliver) run,
      g'',
      λ x. all x ∙ ap (λ k. k || brings rs x) (union x) ∙ regroup (within r x) _ (brings rs x),
    )
  where
    regroup : (p q k : Bool) → ((p || q) || k) ≡ (q || (p || k))
    regroup p q k = ground arith

pub init-Agrees : (asset : List ℕ) → Agrees asset (init (length asset))
init-Agrees asset = record {
  valid = init-IsValid (length asset);
  size = unfold init in refl;
  same = λ x e. unfold init in cc e;
}

-- A valid reassembly is complete exactly when every byte below its size has arrived.
pub complete_iff :
    (a : Reassembly)
    → IsValid a
    → (complete a ≡ true) ↔ ((x : ℕ) → x < a.size → covers a.ranges x ≡ true)
unfolding complete
complete_iff a v = (
  λ e x h.
      covers_of_total 0 a.size x a.ranges v.apart v.inside (ground (arith, v.counted)) (omega arith)
        h,
  λ h.
      ground
        (arith, v.counted, total_of_covers 0 a.size a.ranges v.apart v.inside (λ x _ k. h x k)),
)

-- However the pieces of an asset arrive, reordered, overlapping or repeated: every one fits, each
-- byte that arrived is the asset's, and the reassembly is complete exactly when the pieces bring
-- every byte, and its buffer is then the asset.
pub deliver_lem :
    (asset : List ℕ) (rs : List Range)
    → All (IsPiece asset) rs
    → (a : Reassembly) × (deliver asset (init (length asset)) rs ≡ some a)
      × IsValid a
      × ((x : ℕ) → brings rs x ≡ true → get_or a.bytes x 0 ≡ get_or asset x 0)
      × ((complete a ≡ true) ↔ ((x : ℕ) → x < length asset → brings rs x ≡ true))
      × (complete a ≡ true → a.bytes ≡ asset)
deliver_lem asset rs h =
    let (a, run, g, held) = deliver_from asset rs (init (length asset)) h (init-Agrees asset) in
    let here : ((x : ℕ) → covers a.ranges x ≡ brings rs x) = λ x. unfold init in held x in
    (
      a,
      run,
      g.valid,
      (λ x e. g.same x (here x ∙ e)),
      (
        (λ c x k.
            sym (here x) ∙ (complete_iff a g.valid).0 c x (subst (λ n. x < n) (sym g.size) k)),
        λ all. (complete_iff a g.valid).1 (λ x k. here x ∙ all x (subst (λ n. x < n) g.size k)),
      ),
      λ c.
          eq_of_get_or 0 a.bytes asset (g.valid.buffer ∙ g.size) (λ x k.
            g.same x ((complete_iff a g.valid).0 c x (subst (λ n. x < n) g.valid.buffer k))),
    )
