-- ===== src/SeqTracker/Claims.antt =====
-- client/src/reassembly.ts, SeqTracker.detect: the lost numbers move from missing to claimed.
use http.Common.{
  ℕ, ◌≡◌, refl, sym, subst, Bool, false, not, ◌&&◌, ◌||◌, Option, none, some, List, [], ◌∷◌, ◌==◌,
  if_cases, Bool-cases, inl, inr, has, lookup, mem, Distinct, assign, erase, has-assign, has-erase,
  has-lookup, has_absent, Distinct-assign, Distinct-erase, arith, ap, ◌∙◌,
}
use http.Reassembly.Ranges.{Range, covers}
use http.SeqTracker.{
  SeqTracker, Missing, claim, claim_all, is_lost, keys_where, lost_numbers, detect,
}
use http.SeqTracker.Keeping.{IsValid}
use http.SeqTracker.Ranging.{NoRepeats, Rising, ranges_lem}

-- What claiming the numbers in `lost` does.
pub record Claimed (lost : ℕ → Bool) (t u : SeqTracker) : Type 0 where
  pub valid : IsValid u
  pub next : u.next ≡ t.next
  pub missing : (x : ℕ) → has x u.missing ≡ (has x t.missing && not (lost x))
  pub claimed : (x : ℕ) → has x u.claimed ≡ (has x t.claimed || (has x t.missing && lost x))
  pub settled : u.settled ≡ t.settled

claim-Claimed : (now s : ℕ) (t : SeqTracker) → IsValid t → Claimed (λ x. x == s) t (claim now s t)
unfolding claim
claim-Claimed now s t v = elim (has-lookup s t.missing) [
  | inl h ↦
      rw (h.0, claim)
        (record {
          valid = v;
          next = refl;
          missing = λ x. ground (arith, has_absent x s t.missing h.1);
          claimed = λ x. ground (arith, has_absent x s t.missing h.1);
          settled = refl;
        })
  | inr h ↦
      rw (h.1, claim)
        (record {
          valid = record {
            missing_once = Distinct-erase s t.missing v.missing_once;
            claimed_once = Distinct-assign s _ t.claimed v.claimed_once;
            settled_once = v.settled_once;
            below = λ x e. ground (arith, gone x, came x h.0, v.below x, h.2);
            missing_alone = λ x e. ground (arith, gone x, came x h.0, v.missing_alone x);
            claimed_alone =
                λ x e. ground (arith, came x h.0, v.claimed_alone x, v.missing_alone x, h.2);
          };
          next = refl;
          missing = λ x. gone x ∙ ground arith;
          claimed = λ x. ground (arith, came x h.0, h.2);
          settled = refl;
        })
]
  where
    gone : (x : ℕ) → has x (erase s t.missing) ≡ (not (x == s) && has x t.missing)
    gone x = has-erase x s t.missing v.missing_once

    came :
        (x : ℕ) (m : Missing)
        → has x (assign s (record { at = now; tries = 1; hint = m.hint }) t.claimed)
          ≡ (x == s || has x t.claimed)
    came x m = has-assign x s (record { at = now; tries = 1; hint = m.hint }) t.claimed

Claimed-trans :
    (p q : ℕ → Bool) (t u w : SeqTracker)
    → Claimed p t u
    → Claimed q u w
    → Claimed (λ x. p x || q x) t w
Claimed-trans p q t u w c d = record {
  valid = d.valid;
  next = d.next ∙ c.next;
  missing = λ x. ground (arith, c.missing x, d.missing x);
  claimed = λ x. ground (arith, c.missing x, c.claimed x, d.claimed x);
  settled = d.settled ∙ c.settled;
}

claim_all-Claimed :
    (now : ℕ) (lost : List ℕ) (t : SeqTracker)
    → IsValid t
    → Claimed (λ x. mem x lost) t (claim_all now lost t)
unfolding claim_all
claim_all-Claimed now [] t v = record {
  valid = v;
  next = refl;
  missing = λ x. ground arith;
  claimed = λ x. ground arith;
  settled = refl;
}
claim_all-Claimed now (s ∷ lost) t v =
    let c = claim-Claimed now s t v in
    Claimed-trans (λ x. x == s) (λ x. mem x lost) t (claim now s t) _ c
      (claim_all-Claimed now lost (claim now s t) c.valid)

-- Whether a test holds of what `lookup` finds.
abbrev pub found_such {ℓ} : {A : Type ℓ} → (A → Bool) → Option A → Bool
found_such p none = false
found_such p (some a) = p a

module _ {ℓ} {A : Type ℓ} (p : ℕ → A → Bool) where
  pub mem-keys_where-has :
      (x : ℕ) (m : List (ℕ × A)) → has x m ≡ false → mem x (keys_where p m) ≡ false
  unfolding keys_where
  mem-keys_where-has x [] e = refl
  mem-keys_where-has x ((k, a) ∷ m) e =
      if_cases (λ (l : List ℕ). mem x l ≡ false) (p k a) _ _
        (λ h. ground (arith, mem-keys_where-has x m)) (λ h. mem-keys_where-has x m (ground arith))

  pub mem-keys_where :
      (x : ℕ) (m : List (ℕ × A))
      → Distinct m
      → mem x (keys_where p m) ≡ found_such (p x) (lookup x m)
  unfolding keys_where lookup
  mem-keys_where x [] d = refl
  mem-keys_where x ((k, a) ∷ m) d = elim (Bool-cases (x == k)) [
    | inl e ↦
        let same : x ≡ k = ground arith in
        let none_left : mem x (keys_where p m) ≡ false =
          mem-keys_where-has x m (subst (λ z. has z m ≡ false) (sym same) d.0) in
        let here : p x a ≡ p k a = ap (λ z. p z a) same in
        rw e (
          if_cases (λ (l : List ℕ). mem x l ≡ p x a) (p k a) _ _ (λ h. ground arith)
            (λ h. none_left ∙ sym (here ∙ h)))
    | inr e ↦
        let rest = mem-keys_where x m d.1 in
        rw e (
          if_cases (λ (l : List ℕ). mem x l ≡ found_such (p x) (lookup x m)) (p k a) _ _
            (λ h. ground (arith, rest)) (λ h. rest))
  ]

  pub keys_where-NoRepeats : (m : List (ℕ × A)) → Distinct m → NoRepeats (keys_where p m)
  unfolding keys_where
  keys_where-NoRepeats [] d = tt
  keys_where-NoRepeats ((k, a) ∷ m) d =
      if_cases NoRepeats (p k a) _ _ (λ e. (mem-keys_where-has k m d.0, keys_where-NoRepeats m d.1))
        (λ e. keys_where-NoRepeats m d.1)

-- What `detect` does, for the numbers that are missing and lost.
pub record Detected (t : SeqTracker) (lost : ℕ → Bool) (size : ℕ) (r : List Range × SeqTracker)
    : Type 0 where
  pub asked : (x : ℕ) → covers r.0 x ≡ lost x
  pub rising : Rising size 0 (r.0)
  pub moved : Claimed lost t (r.1)

-- `detect` on a valid tracker asks for exactly the missing numbers that are lost by its rule, in
-- rising disjoint ranges of at most the given size, and moves exactly these from missing to
-- claimed.
pub detect-Detected :
    (t : SeqTracker) (now allowance window : ℕ) (tail : Option ℕ) (size : ℕ)
    → IsValid t
    → Detected t
        (λ x. found_such (is_lost t.next now allowance window tail x) (lookup x t.missing))
        size
        (detect t now allowance window tail size)
unfolding detect lost_numbers
detect-Detected t now allowance window tail size v =
    let p = is_lost t.next now allowance window tail in
    let same = λ (x : ℕ). mem-keys_where p x t.missing v.missing_once in
    let c = claim_all-Claimed now (keys_where p t.missing) t v in
    let r =
      ranges_lem (keys_where p t.missing) size (keys_where-NoRepeats p t.missing v.missing_once) in
    record {
      asked = λ x. r.0 x ∙ same x;
      rising = r.1;
      moved = record {
        valid = c.valid;
        next = c.next;
        missing = λ x. c.missing x ∙ ap (λ b. has x t.missing && not b) (same x);
        claimed = λ x. c.claimed x ∙ ap (λ b. has x t.claimed || (has x t.missing && b)) (same x);
        settled = c.settled;
      };
    }
