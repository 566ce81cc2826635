-- ===== src/Wire/MetaRules.antt =====
-- client/src/wire.ts, checkMeta: what the layout asks of the fields of a META.
use http.Common.{
  ℕ, ◌≤◌, ◌≡◌, ◌≢◌, ◌↔◌, ◌⊎◌, inl, inr, refl, sym, subst, Bool-cases, true, false, not, List, [],
  ◌∷◌, ltb, if_cases, length, any, All, str_eq, str_eq→eq, str_eq_refl, arith,
}
use http.Wire.Types.{Str, ok, meta_names, max_meta_value}
use http.Wire.Checks.{ends_graphic, matches_value, valid_meta_value, check_fields, check_meta}

abbrev pub IsGraphic : ℕ → Type 0
IsGraphic c = (0x21 ≤ c) × (c ≤ 0x7e)

abbrev pub IsPrintable : ℕ → Type 0
IsPrintable c = (0x20 ≤ c) × (c ≤ 0x7e)

abbrev pub FirstIs : (ℕ → Type 0) → Str → Type 0
FirstIs P [] = ⊥
FirstIs P (c ∷ s) = P c

abbrev pub LastIs : (ℕ → Type 0) → Str → Type 0
LastIs P [] = ⊥
LastIs P (c ∷ []) = P c
LastIs P (c ∷ d ∷ s) = LastIs P (d ∷ s)

-- Printable ASCII that neither begins nor ends with a space, of at most so many characters.
abbrev pub IsMetaValue : Str → Type 0
IsMetaValue v =
    (length v ≤ max_meta_value) × All IsPrintable v × FirstIs IsGraphic v × LastIs IsGraphic v

abbrev pub OneOf : Str → List Str → Type 0
OneOf n [] = ⊥
OneOf n (m ∷ ms) = (n ≡ m) ⊎ OneOf n ms

abbrev pub NamedOnce : List (Str × Str) → Type 0
NamedOnce [] = Unit {0}
NamedOnce (f ∷ fs) = All (λ (g : Str × Str). f.0 ≢ g.0) fs × NamedOnce fs

-- Fields with the names that the layout lists, each at most once, with such values.
pub record IsMeta (fields : List (Str × Str)) : Type 0 where
  pub few : length fields ≤ length meta_names
  pub named : All (λ (f : Str × Str). OneOf f.0 meta_names) fields
  pub once : NamedOnce fields
  pub values : All (λ (f : Str × Str). IsMetaValue f.1) fields

OneOf-any : (n : Str) (ms : List Str) → (any (str_eq n) ms ≡ true) ↔ OneOf n ms
OneOf-any n [] = ground arith
OneOf-any n (m ∷ ms) =
    let rest = OneOf-any n ms in
    (
      λ e. elim (Bool-cases (str_eq n m)) [
        | inl h ↦ inl (str_eq→eq n m h)
        | inr h ↦ inr (rest.0 (ground arith))
      ],
      λ o. elim o [
        | inl h ↦
            let same : str_eq n m ≡ true = subst (λ k. str_eq n k ≡ true) h (str_eq_refl n) in
            ground arith
        | inr h ↦ let there : any (str_eq n) ms ≡ true = rest.1 h in ground arith
      ],
    )

ends_graphic_lem :
    (c : ℕ) (s : Str)
    → (ends_graphic c s ≡ true) ↔ (All IsPrintable (c ∷ s) × LastIs IsGraphic (c ∷ s))
unfolding ends_graphic
ends_graphic_lem c [] = ground arith
ends_graphic_lem c (d ∷ s) = ground (arith, ends_graphic_lem d s)

valid_meta_value_lem : (v : Str) → (valid_meta_value v ≡ true) ↔ IsMetaValue v
unfolding valid_meta_value matches_value
valid_meta_value_lem [] = ground arith
valid_meta_value_lem (c ∷ []) = ground arith
valid_meta_value_lem (c ∷ d ∷ s) = ground (arith, ends_graphic_lem d s)

-- None of the names was seen.
abbrev Fresh : List Str → List (Str × Str) → Type 0
Fresh seen = All (λ (f : Str × Str). any (str_eq f.0) seen ≡ false)

Fresh-split :
    (n : Str) (seen : List Str) (fs : List (Str × Str))
    → Fresh (n ∷ seen) fs ↔ (All (λ (g : Str × Str). n ≢ g.0) fs × Fresh seen fs)
Fresh-split n seen [] = ((λ h. (tt, tt)), (λ h. tt))
Fresh-split n seen (f ∷ fs) =
    let rest = Fresh-split n seen fs in
    (
      λ h.
          let (apart, fresh) = rest.0 h.1 in
          let here : n ≢ f.0 = λ e.
            let same : str_eq f.0 n ≡ true =
              subst (λ k. str_eq f.0 k ≡ true) (sym e) (str_eq_refl f.0) in
            let clash : false ≡ true = ground arith in cc clash in
          ((here, apart), (ground arith, fresh)),
      λ h.
          let differ : str_eq f.0 n ≡ false = elim (Bool-cases (str_eq f.0 n)) [
            | inl e ↦ absurd (h.0.0 (sym (str_eq→eq f.0 n e)))
            | inr e ↦ e
          ] in
          (ground arith, rest.1 (h.0.1, h.1.1)),
    )

-- What the loop asks of the fields that are left.
record Passes (seen : List Str) (fields : List (Str × Str)) : Type 0 where
  named : All (λ (f : Str × Str). OneOf f.0 meta_names) fields
  once : NamedOnce fields
  values : All (λ (f : Str × Str). IsMetaValue f.1) fields
  fresh : Fresh seen fields

check_fields-Passes :
    (seen : List Str) (fields : List (Str × Str))
    → check_fields seen fields ≡ ok tt
    → Passes seen fields
unfolding check_fields
check_fields-Passes seen [] e = record { named = tt; once = tt; values = tt; fresh = tt }
check_fields-Passes seen ((n, v) ∷ rest) e =
    let more = check_fields-Passes (n ∷ seen) rest in
    if_cases (λ r. r ≡ ok tt → Passes seen ((n, v) ∷ rest)) (not (any (str_eq n) meta_names)) _ _
      (λ a k. cc k)
      (λ a.
        if_cases (λ r. r ≡ ok tt → Passes seen ((n, v) ∷ rest)) (any (str_eq n) seen) _ _
          (λ b k. cc k)
          (λ b.
            if_cases (λ r. r ≡ ok tt → Passes seen ((n, v) ∷ rest)) (valid_meta_value v) _ _
              (λ c k.
                let p = more k in
                let (apart, fresh) = (Fresh-split n seen rest).0 p.fresh in
                record {
                  named = ((OneOf-any n meta_names).0 (ground arith), p.named);
                  once = (apart, p.once);
                  values = ((valid_meta_value_lem v).0 c, p.values);
                  fresh = (b, fresh);
                })
              (λ c k. cc k)))
      e

Passes-check_fields :
    (seen : List Str) (fields : List (Str × Str))
    → Passes seen fields
    → check_fields seen fields ≡ ok tt
unfolding check_fields
Passes-check_fields seen [] p = refl
Passes-check_fields seen ((n, v) ∷ rest) p =
    let known : any (str_eq n) meta_names ≡ true = (OneOf-any n meta_names).1 p.named.0 in
    let good : valid_meta_value v ≡ true = (valid_meta_value_lem v).1 p.values.0 in
    let more = Passes-check_fields (n ∷ seen) rest (record {
      named = p.named.1;
      once = p.once.1;
      values = p.values.1;
      fresh = (Fresh-split n seen rest).1 (p.once.0, p.fresh.1);
    }) in
    rw known rw p.fresh.0 rw good more

nothing_seen : (fields : List (Str × Str)) → Fresh [] fields
nothing_seen [] = tt
nothing_seen (f ∷ fs) = (refl, nothing_seen fs)

-- checkMeta passes exactly the fields that keep the layout's rules.
pub check_meta_lem : (fields : List (Str × Str)) → (check_meta fields ≡ ok tt) ↔ IsMeta fields
unfolding check_meta
check_meta_lem fields = (
  λ e.
      if_cases (λ r. r ≡ ok tt → IsMeta fields) (ltb (length meta_names) (length fields)) _ _
        (λ a k. cc k)
        (λ a k.
          let p = check_fields-Passes [] fields k in
          record { few = ground arith; named = p.named; once = p.once; values = p.values })
        e,
  λ m.
      if_cases (λ r. r ≡ ok tt) (ltb (length meta_names) (length fields)) _ _
        (λ a. absurd (ground (arith, m.few)))
        (λ a. Passes-check_fields [] fields (record {
          named = m.named;
          once = m.once;
          values = m.values;
          fresh = nothing_seen fields;
        })),
)
