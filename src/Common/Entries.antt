-- ===== src/Common/Entries.antt =====
-- What holds of every entry of a Map.
use Prim.Native.Nat.{ℕ}
use mathlib.Core.Path.{◌≡◌, refl, subst}
use mathlib.Core.Bool.{Bool, true, false}
use mathlib.Core.Option.{some}
use mathlib.Core.List.{List, [], ◌∷◌}
use native.Mathlib.Omega.{arith}
use http.Common.Tests.{◌==◌, if◌then◌else◌, if_cases}
use http.Common.Lists.{All}
use http.Common.Maps.{has, lookup, assign, erase}

if_both {ℓ κ} :
    {A : Type ℓ} (P Q : A → Type κ) (b : Bool) (x y z w : A)
    → (b ≡ true → P x → Q z)
    → (b ≡ false → P y → Q w)
    → P (if b then x else y)
    → Q (if b then z else w)
if_both P Q true x y z w f g h = f refl h
if_both P Q false x y z w f g h = g refl h

module _ {ℓ κ} {A : Type ℓ} (P : ℕ × A → Type κ) where
  pub All-erase : (id : ℕ) (m : List (ℕ × A)) → All P m → All P (erase id m)
  unfolding erase
  All-erase id [] h = tt
  All-erase id ((k, a) ∷ m) h =
      if_cases (All P) (id == k) _ _ (λ e. h.1) (λ e. (h.0, All-erase id m h.1))

  pub All-assign :
      (id : ℕ) (b : A) (m : List (ℕ × A)) → P (id, b) → All P (erase id m) → All P (assign id b m)
  unfolding erase assign
  All-assign id b [] p h = (p, tt)
  All-assign id b ((k, a) ∷ m) p h =
      if_both (All P) (All P) (id == k) _ _ _ _
        (λ e g. let same : id ≡ k = ground arith in (subst (λ n. P (n, b)) same p, g))
        (λ e g. (g.0, All-assign id b m p g.1)) h

  pub All-lookup : (id : ℕ) (m : List (ℕ × A)) (a : A) → lookup id m ≡ some a → All P m → P (id, a)
  unfolding lookup
  All-lookup id [] a e h = cc e
  All-lookup id ((k, b) ∷ m) a e h =
      if_cases (λ o. o ≡ some a → P (id, a)) (id == k) _ _
        (λ t g.
          let same : k ≡ id = ground arith in
          let value : b ≡ a = cc g in subst (λ n. P (n, a)) same (subst (λ c. P (k, c)) value h.0))
        (λ t g. All-lookup id m a g h.1) e

-- A change under one key leaves the entries of the others alone.
pub All-others {ℓ κ} :
    {A : Type ℓ} (P Q : ℕ × A → Type κ) (id : ℕ) (m : List (ℕ × A))
    → has id m ≡ false
    → ((k : ℕ) (a : A) → (k == id) ≡ false → P (k, a) → Q (k, a))
    → All P m
    → All Q m
All-others P Q id [] e g h = tt
All-others P Q id ((k, a) ∷ m) e g h =
    (g k a (ground arith) h.0, All-others P Q id m (ground arith) g h.1)
