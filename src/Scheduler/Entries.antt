-- ===== src/Scheduler/Entries.antt =====
-- The Map of the scheduler: how entries grow while grants are given, and what is in flight.
use http.Common.{
  ℕ, ◌+◌, ◌-◌, ◌≤◌, ◌≡◌, refl, ap, ◌∙◌, subst, ◌⊎◌, inl, inr, true, false, some, [], ◌∷◌, arith,
  ◌==◌, Bool-cases, false,
}
use http.Scheduler.{Entry, Rpcs, find, modify, outstanding, unfinished}

-- An entry whose grant may have been raised, within its size; nothing else of it changed.
pub record Raised (e f : Entry) : Type 0 where
  pub rest : f ≡ record e { granted = f.granted }
  pub same_size : f.size ≡ e.size
  pub same_received : f.received ≡ e.received
  pub up : e.granted ≤ f.granted
  pub cap : (f.granted ≡ e.granted) ⊎ (f.granted ≤ e.size)

pub Raised-refl : (e : Entry) → Raised e e
Raised-refl e = record {
  rest = refl;
  same_size = refl;
  same_received = refl;
  up = omega arith;
  cap = inl refl;
}

pub Raised-trans : (e f g : Entry) → Raised e f → Raised f g → Raised e g
Raised-trans e f g r s = record {
  rest = s.rest ∙ ap (λ (x : Entry). let y : Entry = record x { granted = g.granted } in y) r.rest;
  same_size = s.same_size ∙ r.same_size;
  same_received = s.same_received ∙ r.same_received;
  up = omega (arith, r.up, s.up);
  cap = ground (arith, r.cap, s.cap, r.same_size);
}

-- The same keys in the same order, and raised entries.
abbrev pub Grown : Rpcs → Rpcs → Type 0
Grown [] [] = Unit {0}
Grown [] (d ∷ r) = ⊥
Grown (c ∷ q) [] = ⊥
Grown (c ∷ q) (d ∷ r) = (d.0 ≡ c.0) × Raised c.1 d.1 × Grown q r

pub Grown-refl : (q : Rpcs) → Grown q q
Grown-refl [] = tt
Grown-refl (c ∷ q) = (refl, Raised-refl c.1, Grown-refl q)

pub Grown-trans : (p q r : Rpcs) → Grown p q → Grown q r → Grown p r
Grown-trans [] [] r g h = h
Grown-trans [] (c ∷ q) r g h = absurd g
Grown-trans (b ∷ p) [] r g h = absurd g
Grown-trans (b ∷ p) (c ∷ q) [] g h = h
Grown-trans (b ∷ p) (c ∷ q) (d ∷ r) (k, e, g) (k', e', h) =
    (k' ∙ k, Raised-trans b.1 c.1 d.1 e e', Grown-trans p q r g h)

raise_lem :
    (f : Entry) (target : ℕ)
    → f.granted ≤ target
    → target ≤ f.size
    → Raised f (record f { granted = target })
raise_lem f target h k = record {
  rest = refl;
  same_size = refl;
  same_received = refl;
  up = h;
  cap = inr k;
}

find_head :
    (id k : ℕ) (f : Entry) (q : Rpcs) (e : Entry)
    → find id ((k, f) ∷ q) ≡ some e
    → (((k == id) ≡ true) × (f ≡ e)) ⊎ (((k == id) ≡ false) × (find id q ≡ some e))
unfolding find
find_head id k f q e h = ground arith

-- A grant of `target` to the entry found under `id`.
pub modify-Grown :
    (id target : ℕ) (e : Entry) (q : Rpcs)
    → find id q ≡ some e
    → e.granted ≤ target
    → target ≤ e.size
    → Grown q (modify id (λ o. record o { granted = target }) q)
unfolding modify
modify-Grown id target e [] h l m = unfold find in absurd (cc h)
modify-Grown id target e ((k, f) ∷ q) h l m = elim (find_head id k f q e h) [
  | inl (t, same) ↦ rw t (refl, raise_lem f target (rw same l) (rw same m), Grown-refl q)
  | inr (t, found) ↦ rw t (refl, Raised-refl f, modify-Grown id target e q found l m)
]

-- It adds at most what the grant rises by to what is in flight.
pub outstanding-modify :
    (id target : ℕ) (e : Entry) (q : Rpcs)
    → find id q ≡ some e
    → e.granted ≤ target
    → outstanding (modify id (λ o. record o { granted = target }) q)
      ≤ outstanding q + (target - e.granted)
unfolding modify outstanding
outstanding-modify id target e [] h l = unfold find in absurd (cc h)
outstanding-modify id target e ((k, f) ∷ q) h l = elim (find_head id k f q e h) [
  | inl (t, same) ↦ rw (t, same) (omega arith)
  | inr (t, found) ↦ rw t (omega (arith, outstanding-modify id target e q found l))
]

-- What is found stays to be found, raised.
pub find-Grown :
    (id : ℕ) (e : Entry) (q r : Rpcs)
    → Grown q r
    → find id q ≡ some e
    → (f : Entry) × (find id r ≡ some f) × Raised e f
unfolding find
find-Grown id e [] [] g h = absurd (cc h)
find-Grown id e [] (d ∷ r) g h = absurd g
find-Grown id e (c ∷ q) [] g h = absurd g
find-Grown id e (c ∷ q) (d ∷ r) (k, up, g) h = elim (find_head id c.0 c.1 q e h) [
  | inl (t, same) ↦ (d.1, rw (k, t), subst (λ x. Raised x d.1) same up)
  | inr (t, found) ↦ let (f, h', up') = find-Grown id e q r g found in (f, rw (k, t) h', up')
]

pub find-modify :
    (id : ℕ) (f : Entry → Entry) (e : Entry) (q : Rpcs)
    → find id q ≡ some e
    → find id (modify id f q) ≡ some (f e)
unfolding find modify
find-modify id f e [] h = absurd (cc h)
find-modify id f e ((k, g) ∷ q) h = elim (find_head id k g q e h) [
  | inl (t, same) ↦ rw (t, same) (rw t)
  | inr (t, found) ↦ rw t (rw t (find-modify id f e q found))
]

pub find-modify_other :
    (k id : ℕ) (f : Entry → Entry) (q : Rpcs)
    → (k == id) ≡ false
    → find k (modify id f q) ≡ find k q
unfolding find modify
find-modify_other k id f [] h = refl
find-modify_other k id f ((j, e) ∷ q) h = elim (Bool-cases (j == id)) [
  | inl t ↦ rw t (ground arith)
  | inr t ↦ rw t (ground (arith, find-modify_other k id f q h))
]

-- A finished entry stays finished.
pub unfinished-Grown :
    (id : ℕ) (e : Entry) (q r : Rpcs)
    → Grown q r
    → find id q ≡ some e
    → e.size ≤ e.granted
    → unfinished r id ≡ false
unfolding unfinished
unfinished-Grown id e q r g h k =
    let (f, h', up) = find-Grown id e q r g h in
    rw (h', unfinished) (ground (arith, up.up, up.same_size))
