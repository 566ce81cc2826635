-- ===== src/Wire/RoundTrip/Checked.antt =====
-- What a passed check of encode tells.
use http.Common.{ℕ, ◌+◌, ◌^◌, ◌≤◌, ◌<◌, ◌≡◌, refl, Bool, true, false, List, arith, length}
use http.Wire.Types.{Result, ok, err, ◌>>◌, Malformed}
use http.Wire.Checks.{check, check_u64, check_u32, check_u8, check_data_bounds, check_resend_range}

module _ {ℓ} {A : Type ℓ} (m : Result A) {a : A} where
  pub check_passed :
      (c : Bool) (e : Malformed) → (check c (err e) >> m) ≡ ok a → (c ≡ false) × (m ≡ ok a)
  check_passed true e h = ground arith
  check_passed false e h = (refl, h)

  pub u64_passed : (n : ℕ) → (check_u64 n >> m) ≡ ok a → (n < 2 ^ 64) × (m ≡ ok a)
  unfolding check_u64
  u64_passed n h = ground (arith, check_passed _ _ h)

  pub u32_passed : (n : ℕ) → (check_u32 n >> m) ≡ ok a → (n < 2 ^ 32) × (m ≡ ok a)
  unfolding check_u32
  u32_passed n h = ground (arith, check_passed _ _ h)

  pub u8_passed : (n : ℕ) → (check_u8 n >> m) ≡ ok a → (n < 256) × (m ≡ ok a)
  unfolding check_u8
  u8_passed n h = ground (arith, check_passed _ _ h)

  pub bounds_passed :
      (offset : ℕ) (payload : List ℕ) (total : ℕ)
      → (check_data_bounds offset payload total >> m) ≡ ok a
      → (offset + length payload ≤ total) × (m ≡ ok a)
  unfolding check_data_bounds
  bounds_passed offset payload total h = ground (arith, check_passed _ _ h)

  pub range_passed :
      (start stop : ℕ) → (check_resend_range start stop >> m) ≡ ok a → (start < stop) × (m ≡ ok a)
  unfolding check_resend_range
  range_passed start stop h = ground (arith, check_passed _ _ h)

pub ok-injective {ℓ} : {A : Type ℓ} {a b : A} → ok a ≡ ok b → a ≡ b
ok-injective h = cc
