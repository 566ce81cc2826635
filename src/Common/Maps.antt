-- ===== src/Common/Maps.antt =====
-- A JavaScript Map with numbers as keys: its entries in insertion order.
use Prim.Native.Nat.{ℕ}
use mathlib.Core.Path.{◌≡◌, refl, sym, subst}
use mathlib.Core.Logic.{◌⊎◌, inl, inr}
use mathlib.Core.Bool.{Bool, true, false, not, ◌&&◌, ◌||◌}
use mathlib.Core.Option.{Option, none, some}
use mathlib.Core.List.{List, [], ◌∷◌}
use native.Mathlib.Omega.{arith}
use http.Common.Tests.{◌==◌, if◌then◌else◌, if_cases, Bool-cases}

abbrev pub mem : ℕ → List ℕ → Bool
mem x [] = false
mem x (y ∷ ys) = x == y || mem x ys

module _ {ℓ} {A : Type ℓ} where
  abbrev pub has : ℕ → List (ℕ × A) → Bool
  has x [] = false
  has x ((k, a) ∷ rest) = x == k || has x rest

  unfoldable pub lookup : ℕ → List (ℕ × A) → Option A
  lookup x [] = none
  lookup x ((k, a) ∷ rest) = if x == k then some a else lookup x rest

  unfoldable pub assign : ℕ → A → List (ℕ × A) → List (ℕ × A)
  assign x b [] = (x, b) ∷ []
  assign x b ((k, a) ∷ rest) = if x == k then (k, b) ∷ rest else (k, a) ∷ assign x b rest

  unfoldable pub erase : ℕ → List (ℕ × A) → List (ℕ × A)
  erase x [] = []
  erase x ((k, a) ∷ rest) = if x == k then rest else (k, a) ∷ erase x rest

  -- A key stands for one entry.
  abbrev pub Distinct : List (ℕ × A) → Type 0
  Distinct [] = Unit {0}
  Distinct ((k, a) ∷ rest) = (has k rest ≡ false) × Distinct rest

module _ {ℓ} {A : Type ℓ} where
  pub has-assign : (x y : ℕ) (b : A) (m : List (ℕ × A)) → has x (assign y b m) ≡ (x == y || has x m)
  unfolding assign
  has-assign x y b [] = refl
  has-assign x y b ((k, a) ∷ m) =
      if_cases (λ (n : List (ℕ × A)). has x n ≡ (x == y || (x == k || has x m))) (y == k) _ _
        (λ e. ground arith) (λ e. ground (arith, has-assign x y b m))

  pub has-erase :
      (x y : ℕ) (m : List (ℕ × A)) → Distinct m → has x (erase y m) ≡ (not (x == y) && has x m)
  unfolding erase
  has-erase x y [] d = ground arith
  has-erase x y ((k, a) ∷ m) d =
      if_cases (λ (n : List (ℕ × A)). has x n ≡ (not (x == y) && (x == k || has x m))) (y == k) _ _
        (λ e. elim (Bool-cases (x == k)) [
          | inl h ↦
              let same : x ≡ k = ground arith in
              let gone : has x m ≡ false = subst (λ z. has z m ≡ false) (sym same) d.0 in
              ground arith
          | inr h ↦ ground arith
        ])
        (λ e. ground (arith, has-erase x y m d.1))

  pub Distinct-assign : (y : ℕ) (b : A) (m : List (ℕ × A)) → Distinct m → Distinct (assign y b m)
  unfolding assign
  Distinct-assign y b [] d = (refl, tt)
  Distinct-assign y b ((k, a) ∷ m) d =
      if_cases (Distinct {A = A}) (y == k) _ _ (λ e. d)
        (λ e. (ground (arith, has-assign k y b m, d.0), Distinct-assign y b m d.1))

  pub Distinct-erase : (y : ℕ) (m : List (ℕ × A)) → Distinct m → Distinct (erase y m)
  unfolding erase
  Distinct-erase y [] d = tt
  Distinct-erase y ((k, a) ∷ m) d =
      if_cases (Distinct {A = A}) (y == k) _ _ (λ e. d.1)
        (λ e. (ground (arith, has-erase k y m d.1, d.0), Distinct-erase y m d.1))

  pub lookup-assign :
      (x y : ℕ) (b : A) (m : List (ℕ × A))
      → lookup x (assign y b m) ≡ (if x == y then some b else lookup x m)
  unfolding lookup assign
  lookup-assign x y b [] = refl
  lookup-assign x y b ((k, a) ∷ m) = elim (Bool-cases (y == k)) [
    | inl e ↦ rw e (ground arith)
    | inr e ↦ rw e (ground (arith, lookup-assign x y b m))
  ]

  pub lookup-erase_other :
      (x y : ℕ) (m : List (ℕ × A)) → (x == y) ≡ false → lookup x (erase y m) ≡ lookup x m
  unfolding lookup erase
  lookup-erase_other x y [] h = refl
  lookup-erase_other x y ((k, a) ∷ m) h = elim (Bool-cases (y == k)) [
    | inl e ↦ rw e (ground arith)
    | inr e ↦ rw e (ground (arith, lookup-erase_other x y m h))
  ]

  -- What `lookup` finds is there, and nothing is there when it finds none.
  pub has-lookup :
      (x : ℕ) (m : List (ℕ × A))
      → ((lookup x m ≡ none) × (has x m ≡ false))
        ⊎ ((a : A) × (lookup x m ≡ some a) × (has x m ≡ true))
  unfolding lookup
  has-lookup x [] = inl (refl, refl)
  has-lookup x ((k, a) ∷ m) =
      if_cases
        (λ (o : Option A).
          ((o ≡ none) × ((x == k || has x m) ≡ false))
          ⊎ ((b : A) × (o ≡ some b) × ((x == k || has x m) ≡ true)))
        (x == k) _ _ (λ e. inr (a, refl, ground arith))
        (λ e. elim (has-lookup x m) [
          | inl h ↦ inl (h.0, ground (arith, h.1))
          | inr h ↦ inr (h.0, h.1, ground (arith, h.2))
        ])

  -- A key that is not there is not the one looked for.
  pub has_absent : (x y : ℕ) (m : List (ℕ × A)) → has y m ≡ false → (has x m && (x == y)) ≡ false
  has_absent x y m e = elim (Bool-cases (x == y)) [
    | inl h ↦
        let same : x ≡ y = ground arith in
        let gone : has x m ≡ false = subst (λ z. has z m ≡ false) (sym same) e in ground arith
    | inr h ↦ ground arith
  ]

pub mem_absent : (x y : ℕ) (ns : List ℕ) → mem y ns ≡ false → (mem x ns && (x == y)) ≡ false
mem_absent x y ns e = elim (Bool-cases (x == y)) [
  | inl h ↦
      let same : x ≡ y = ground arith in
      let gone : mem x ns ≡ false = subst (λ z. mem z ns ≡ false) (sym same) e in ground arith
  | inr h ↦ ground arith
]
