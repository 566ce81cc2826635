-- ===== src/Priority/Prefixes.antt =====
-- client/src/priority.ts: which rule of the page's `classes` map decides.
use http.Common.{
  ◌≤◌, ◌≡◌, refl, true, false, [], ◌∷◌, leb, if_cases, length, All, ◌⊎◌, inl, inr, arith,
}
use http.Wire.Types.{Str}
use http.Priority.{
  PriorityClass, ClassMap, starts_with, class_for, class_for_destination, insert_rule, sort_rules,
}

abbrev pub IsIn : Str × PriorityClass → ClassMap → Type 0
IsIn r [] = ⊥
IsIn r (s ∷ rest) = (r ≡ s) ⊎ IsIn r rest

-- No rule is longer than the ones before it.
abbrev Falling : ClassMap → Type 0
Falling [] = Unit {0}
Falling (s ∷ rest) = All (λ (t : Str × PriorityClass). length t.0 ≤ length s.0) rest × Falling rest

-- A rule among `rules` decides: it matches, and no longer rule does; or none matches.
abbrev pub Decides : Str → Str → ClassMap → PriorityClass → Type 0
Decides pathname destination rules c =
    (All (λ (s : Str × PriorityClass). starts_with pathname s.0 ≡ false) rules
      × (c ≡ class_for_destination destination))
    ⊎ ((r : Str × PriorityClass) × IsIn r rules
        × (starts_with pathname r.0 ≡ true)
        × (c ≡ r.1)
        × All
            (λ (s : Str × PriorityClass).
              (starts_with pathname s.0 ≡ false) ⊎ (length s.0 ≤ length r.0))
            rules)

module _ {κ} (P : Str × PriorityClass → Type κ) where
  All-insert_rule :
      (r : Str × PriorityClass) (l : ClassMap) → P r → All P l → All P (insert_rule r l)
  unfolding insert_rule
  All-insert_rule r [] p h = (p, tt)
  All-insert_rule r (s ∷ l) p h =
      if_cases (All P) (leb (length s.0) (length r.0)) _ _ (λ e. (p, h))
        (λ e. (h.0, All-insert_rule r l p h.1))

  All-inserted : (r : Str × PriorityClass) (l : ClassMap) → All P (insert_rule r l) → P r × All P l
  unfolding insert_rule
  All-inserted r [] h = (h.0, tt)
  All-inserted r (s ∷ l) h =
      if_cases (λ (m : ClassMap). All P m → P r × All P (s ∷ l)) (leb (length s.0) (length r.0)) _ _
        (λ e k. (k.0, k.1)) (λ e k. let rest = All-inserted r l k.1 in (rest.0, (k.0, rest.1))) h

  All-sorted : (l : ClassMap) → All P (sort_rules l) → All P l
  unfolding sort_rules
  All-sorted [] h = tt
  All-sorted (r ∷ l) h = let rest = All-inserted r (sort_rules l) h in (rest.0, All-sorted l rest.1)

All-weaken :
    {P Q : Str × PriorityClass → Type 0} (l : ClassMap)
    → ((s : Str × PriorityClass) → P s → Q s)
    → All P l
    → All Q l
All-weaken [] f h = tt
All-weaken (s ∷ l) f h = (f s h.0, All-weaken l f h.1)

insert_rule-Falling :
    (r : Str × PriorityClass) (l : ClassMap) → Falling l → Falling (insert_rule r l)
unfolding insert_rule
insert_rule-Falling r [] h = (tt, tt)
insert_rule-Falling r (s ∷ l) h =
    if_cases Falling (leb (length s.0) (length r.0)) _ _
      (λ e.
        let k : length s.0 ≤ length r.0 = ground arith in
        ((k, All-weaken l (λ t m. omega (arith, k, m)) h.0), h))
      (λ e.
        let k : length r.0 ≤ length s.0 = ground arith in
        (All-insert_rule (λ t. length t.0 ≤ length s.0) r l k h.0, insert_rule-Falling r l h.1))

sort_rules-Falling : (l : ClassMap) → Falling (sort_rules l)
unfolding sort_rules
sort_rules-Falling [] = tt
sort_rules-Falling (r ∷ l) = insert_rule-Falling r (sort_rules l) (sort_rules-Falling l)

IsIn-insert_rule :
    (r s : Str × PriorityClass) (l : ClassMap) → IsIn r (insert_rule s l) → (r ≡ s) ⊎ IsIn r l
unfolding insert_rule
IsIn-insert_rule r s [] h = h
IsIn-insert_rule r s (t ∷ l) h =
    if_cases (λ (m : ClassMap). IsIn r m → (r ≡ s) ⊎ IsIn r (t ∷ l)) (leb (length t.0) (length s.0))
      _ _ (λ e k. k)
      (λ e k. elim k [
        | inl same ↦ inr (inl same)
        | inr there ↦ elim (IsIn-insert_rule r s l there) [
          | inl same ↦ inl same
          | inr old ↦ inr (inr old)
        ]
      ])
      h

IsIn-sort_rules : (r : Str × PriorityClass) (l : ClassMap) → IsIn r (sort_rules l) → IsIn r l
unfolding sort_rules
IsIn-sort_rules r [] h = h
IsIn-sort_rules r (s ∷ l) h = elim (IsIn-insert_rule r s (sort_rules l) h) [
  | inl same ↦ inl same
  | inr there ↦ inr (IsIn-sort_rules r l there)
]

first-Decides :
    (pathname destination : Str) (l : ClassMap)
    → Falling l
    → Decides pathname destination l (class_for pathname destination l)
unfolding class_for
first-Decides pathname destination [] h = inl (tt, refl)
first-Decides pathname destination (s ∷ l) h =
    if_cases (Decides pathname destination (s ∷ l)) (starts_with pathname s.0) _ _
      (λ e. inr (s, inl refl, e, refl, (inr (omega arith), All-weaken l (λ t k. inr k) h.0)))
      (λ e. elim (first-Decides pathname destination l h.1) [
        | inl none_match ↦ inl ((e, none_match.0), none_match.1)
        | inr found ↦ inr (found.0, inr found.1, found.2, found.3, (inl e, found.4))
      ])

-- The rule with the longest prefix that the path starts with decides the class, in whatever order
-- the page wrote the rules; if none matches, the destination does.
pub class_for_longest :
    (pathname destination : Str) (rules : ClassMap)
    → Decides pathname destination rules (class_for pathname destination (sort_rules rules))
class_for_longest pathname destination rules =
    elim (first-Decides pathname destination (sort_rules rules) (sort_rules-Falling rules)) [
      | inl none_match ↦ inl (All-sorted _ rules none_match.0, none_match.1)
      | inr found ↦ inr (
        found.0,
        IsIn-sort_rules found.0 rules found.1,
        found.2,
        found.3,
        All-sorted _ rules found.4,
      )
    ]
