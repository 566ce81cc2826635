-- ===== src/Scheduler/Candidates.antt =====
-- The candidates: the unfinished transfers that are not paused, in the scheduling order.
use http.Common.{
  ℕ, ◌≡◌, inl, inr, true, false, Bool-cases, some, [], ◌∷◌, arith, ◌==◌, ==_refl, All,
}
use mathlib.Core.List.{Perm}
use mathlib.Core.List.Perm
use http.Scheduler.{
  Entry, Rpcs, find, wants, precedes, insert_sorted, sort_candidates, filter_wants, keys,
  candidates,
}

-- In order: each comes before all behind it, by class, then bytes left, then arrival.
abbrev pub Ordered : Rpcs → Type 0
Ordered [] = Unit {0}
Ordered (c ∷ q) = All (λ d. precedes c.1 d.1 ≡ true) q × Ordered q

precedes_trans : (a b c : Entry) → precedes a b ≡ true → precedes b c ≡ true → precedes a c ≡ true
unfolding precedes
precedes_trans a b c h k = ground arith

precedes-total : (a b : Entry) → precedes a b ≡ false → precedes b a ≡ true
unfolding precedes
precedes-total a b h = ground arith

All-insert {ℓ} :
    (P : ℕ × Entry → Type ℓ) (c : ℕ × Entry) (q : Rpcs) → P c → All P q → All P (insert_sorted c q)
unfolding insert_sorted
All-insert P c [] h a = (h, tt)
All-insert P c (d ∷ q) h a = elim (Bool-cases (precedes c.1 d.1)) [
  | inl e ↦ rw e (h, a)
  | inr e ↦ rw e (a.0, All-insert P c q h a.1)
]

All-trans :
    (a b : Entry) (q : Rpcs)
    → precedes a b ≡ true
    → All (λ d. precedes b d.1 ≡ true) q
    → All (λ d. precedes a d.1 ≡ true) q
All-trans a b [] h k = tt
All-trans a b (d ∷ q) h k = (precedes_trans a b d.1 h k.0, All-trans a b q h k.1)

insert-Ordered : (c : ℕ × Entry) (q : Rpcs) → Ordered q → Ordered (insert_sorted c q)
unfolding insert_sorted
insert-Ordered c [] o = (tt, tt)
insert-Ordered c (d ∷ q) o = elim (Bool-cases (precedes c.1 d.1)) [
  | inl e ↦ rw e ((e, All-trans c.1 d.1 q e o.0), o)
  | inr e ↦ rw e (All-insert _ c q (precedes-total c.1 d.1 e) o.0, insert-Ordered c q o.1)
]

sort-Ordered : (q : Rpcs) → Ordered (sort_candidates q)
unfolding sort_candidates
sort-Ordered [] = tt
sort-Ordered (c ∷ q) = insert-Ordered c (sort_candidates q) (sort-Ordered q)

insert-perm : (c : ℕ × Entry) (q : Rpcs) → Perm (insert_sorted c q) (c ∷ q)
unfolding insert_sorted
insert-perm c [] = Perm.refl (c ∷ [])
insert-perm c (d ∷ q) = elim (Bool-cases (precedes c.1 d.1)) [
  | inl e ↦ rw e (Perm.refl (c ∷ d ∷ q))
  | inr e ↦ rw e (Perm.trans (Perm.cons d (insert-perm c q)) (Perm.swap c d q))
]

sort-perm : (q : Rpcs) → Perm (sort_candidates q) q
unfolding sort_candidates
sort-perm [] = Perm.refl []
sort-perm (c ∷ q) = Perm.trans (insert-perm c (sort_candidates q)) (Perm.cons c (sort-perm q))

-- The candidates are the transfers that want more, each once, in the scheduling order.
pub sort_candidates_lem :
    (q : Rpcs)
    → Ordered (sort_candidates (filter_wants q))
      × Perm (sort_candidates (filter_wants q)) (filter_wants q)
sort_candidates_lem q = (sort-Ordered (filter_wants q), sort-perm (filter_wants q))

-- Every candidate has an entry.
abbrev Found : Rpcs → ℕ × Entry → Type 0
Found q c = (e : Entry) × (find c.0 q ≡ some e)

Found-cons : (d c : ℕ × Entry) (q : Rpcs) → Found q c → Found (d ∷ q) c
unfolding find
Found-cons d c q (e, h) = elim (Bool-cases (d.0 == c.0)) [
  | inl t ↦ (d.1, rw t)
  | inr t ↦ (e, rw t h)
]

All-Found-cons : (d : ℕ × Entry) (q p : Rpcs) → All (Found q) p → All (Found (d ∷ q)) p
All-Found-cons d q [] a = tt
All-Found-cons d q (c ∷ p) a = (Found-cons d c q a.0, All-Found-cons d q p a.1)

All-Found : (q : Rpcs) → All (Found q) q
unfolding find
All-Found [] = tt
All-Found (c ∷ q) = ((c.1, rw (==_refl c.0)), All-Found-cons c q q (All-Found q))

All-filter {ℓ} : (P : ℕ × Entry → Type ℓ) (q : Rpcs) → All P q → All P (filter_wants q)
unfolding filter_wants
All-filter P [] a = tt
All-filter P (c ∷ q) a = elim (Bool-cases (wants c.1)) [
  | inl e ↦ rw e (a.0, All-filter P q a.1)
  | inr e ↦ rw e (All-filter P q a.1)
]

All-sort {ℓ} : (P : ℕ × Entry → Type ℓ) (q : Rpcs) → All P q → All P (sort_candidates q)
unfolding sort_candidates
All-sort P [] a = tt
All-sort P (c ∷ q) a = All-insert P c (sort_candidates q) a.0 (All-sort P q a.1)

All-keys : (q p : Rpcs) → All (Found q) p → All (λ id. (e : Entry) × (find id q ≡ some e)) (keys p)
All-keys q [] a = tt
All-keys q (c ∷ p) a = (a.0, All-keys q p a.1)

pub candidates-found : (q : Rpcs) → All (λ id. (e : Entry) × (find id q ≡ some e)) (candidates q)
unfolding candidates
candidates-found q =
    All-keys q _ (All-sort (Found q) (filter_wants q) (All-filter (Found q) q (All-Found q)))
