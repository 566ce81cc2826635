-- ===== src/Scheduler/Strict.antt =====
-- The loop of `grants` serves the candidates strictly in their order.
use http.Common.{
  ℕ, ◌+◌, ◌≤◌, ◌≡◌, refl, ap, sym, ◌∙◌, ◌⊎◌, inl, inr, min, Bool, false, ◌&&◌, ◌||◌, Bool-cases,
  some, List, [], ◌∷◌, ◌++◌, append-nil, append_assoc, arith, ltb, ◌==◌, if_cases, All,
}
use http.Scheduler.{
  Entry, Rpcs, GrantDecision, Round, find, unfinished, give, too_small, grant_loop, is_empty,
}
use http.Scheduler.Entries.{Grown, find-Grown, find-modify, find-modify_other, unfinished-Grown}
use http.Scheduler.Rounds.{
  Given, IsCapped, target_of, give-Given, grant_loop-Given, find-capped, Grown-IsCapped,
}

-- All candidates have entries.
abbrev pub AllFound : List ℕ → Rpcs → Type 0
AllFound ids q = All (λ id. (e : Entry) × (find id q ≡ some e)) ids

AllFound-Grown : (ids : List ℕ) (q r : Rpcs) → Grown q r → AllFound ids q → AllFound ids r
AllFound-Grown [] q r g a = tt
AllFound-Grown (id ∷ ids) q r g ((e, h), a) =
    let (f, k, up) = find-Grown id e q r g h in ((f, k), AllFound-Grown ids q r g a)

-- With nothing left to spend the loop stops.
grant_loop_spent :
    (all : List ℕ) (min_inc : ℕ) (idle : Bool) (rank : ℕ) (ids : List ℕ) (r : Round)
    → AllFound ids r.rpcs
    → r.available ≡ 0
    → grant_loop all min_inc idle rank ids r ≡ r
unfolding grant_loop
grant_loop_spent all min_inc idle rank [] r a h = refl
grant_loop_spent all min_inc idle rank (id ∷ ids) r ((e, f), a) h =
    rw (f, grant_loop)
      (if_cases (λ s. s ≡ r) (r.available == 0) r _ (λ _. refl) (λ k. absurd (ground arith)))

-- The GRANT of a candidate: up to what its entry says is granted, at the rank that it stands at.
pub record Decided (q : Rpcs) (rank id : ℕ) (d : GrantDecision) : Type 0 where
  pub whose : d.rpc_id ≡ id
  pub ranked : d.priority ≡ min rank 7
  pub entry : Entry
  pub found : find id q ≡ some entry
  pub up_to : d.max_offset ≡ entry.granted

-- The grants given: to the candidates in their order, each but the last of them served in full.
abbrev pub Served : ℕ → List ℕ → List GrantDecision → Rpcs → Type 0
Served rank ids [] q = Unit
Served rank [] (d ∷ ds) q = ⊥
Served rank (id ∷ ids) (d ∷ []) q = Decided q rank id d
Served rank (id ∷ ids) (d ∷ f ∷ ds) q =
    Decided q rank id d × (unfinished q id ≡ false) × Served (rank + 1) ids (f ∷ ds) q

-- Some GRANT is for the transfer.
abbrev pub among : ℕ → List GrantDecision → Bool
among k [] = false
among k (d ∷ ds) = k == d.rpc_id || among k ds

abbrev pub OthersKept : List GrantDecision → Rpcs → Rpcs → Type 0
OthersKept ds q r = (k : ℕ) → among k ds ≡ false → find k r ≡ find k q

-- The loop appends such grants, and changes no other entry.
abbrev pub Appends : ℕ → List ℕ → Round → Round → Type 0
Appends rank ids r s =
    (new : List GrantDecision) × (s.out ≡ r.out ++ new)
    × Served rank ids new s.rpcs
    × OthersKept new r.rpcs s.rpcs

Served-next :
    (rank id : ℕ) (ids : List ℕ) (d : GrantDecision) (new : List GrantDecision) (q : Rpcs)
    → Decided q rank id d
    → (new ≡ []) ⊎ (unfinished q id ≡ false)
    → Served (rank + 1) ids new q
    → Served rank (id ∷ ids) (d ∷ new) q
Served-next rank id ids d [] q h k s = h
Served-next rank id ids d (f ∷ ds) q h (inl k) s = absurd (cc k)
Served-next rank id ids d (f ∷ ds) q h (inr k) s = (h, k, s)

append_same {ℓ} : {A : Type ℓ} (xs ys : List A) → xs ≡ xs ++ ys → ys ≡ []
append_same [] ys h = sym h
append_same (x ∷ xs) ys h = append_same xs ys (cc h)

-- After a grant there is nothing left to spend, or the candidate is served in full.
give_full :
    (all : List ℕ) (id : ℕ) (e : Entry) (rank : ℕ) (r : Round)
    → find id r.rpcs ≡ some e
    → e.granted ≤ e.size
    → (f : Entry) × (find id (give all id e rank (target_of e r) r).rpcs ≡ some f)
      × (target_of e r ≡ f.granted)
      × (((give all id e rank (target_of e r) r).available ≡ 0) ⊎ (f.size ≤ f.granted))
unfolding give
give_full all id e rank r h c = (
  record e { granted = target_of e r },
  find-modify id (λ o. record o { granted = target_of e r }) e r.rpcs h,
  refl,
  elim (Bool-cases (ltb (e.granted + r.available) e.size)) [
    | inl t ↦ inl (ground arith)
    | inr t ↦ inr (ground arith)
  ],
)

-- A grant changes the entry of no other transfer.
give_others :
    (all : List ℕ) (id : ℕ) (e : Entry) (rank target k : ℕ) (r : Round)
    → (k == id) ≡ false
    → find k (give all id e rank target r).rpcs ≡ find k r.rpcs
unfolding give
give_others all id e rank target k r h =
    find-modify_other k id (λ o. record o { granted = target }) r.rpcs h

-- What is granted in full stays as it is.
full-Grown :
    (id : ℕ) (f : Entry) (q r : Rpcs)
    → Grown q r
    → find id q ≡ some f
    → f.size ≤ f.granted
    → (e : Entry) × (find id r ≡ some e) × (f.granted ≡ e.granted)
full-Grown id f q r g h full =
    let (e, k, up) = find-Grown id f q r g h in (e, k, ground (arith, up.up, up.cap))

-- The loop goes on behind one grant.
given-Appends :
    (all : List ℕ) (min_inc : ℕ) (idle : Bool) (rank id : ℕ) (ids : List ℕ) (e : Entry) (r : Round)
    → IsCapped r.rpcs
    → AllFound ids r.rpcs
    → find id r.rpcs ≡ some e
    → let g = give all id e rank (target_of e r) r in
      let s = grant_loop all min_inc idle (rank + 1) ids g in
      Appends (rank + 1) ids g s → Appends rank (id ∷ ids) r s
given-Appends all min_inc idle rank id ids e r c a h (new, out, served, rest) =
    let g : Round = give all id e rank (target_of e r) r in
    let s : Round = grant_loop all min_inc idle (rank + 1) ids g in
    let step : Given r g = give-Given all id e rank r c h in
    let more : Given g s =
      grant_loop-Given all min_inc idle (rank + 1) ids g
        (Grown-IsCapped r.rpcs g.rpcs step.grown c) in
    let d : GrantDecision = record {
      rpc_id = id;
      max_offset = target_of e r;
      priority = min rank 7;
    } in
    let (f, k, granted, ends) = give_full all id e rank r h (find-capped id r.rpcs e c h) in
    let spent : (g.available ≡ 0 → s ≡ g) =
      grant_loop_spent all min_inc idle (rank + 1) ids g
        (AllFound-Grown ids r.rpcs g.rpcs step.grown a) in
    let last : (new ≡ []) ⊎ (unfinished s.rpcs id ≡ false) = elim ends [
      | inl z ↦ inl (append_same g.out new (sym (ap (λ (x : Round). x.out) (spent z)) ∙ out))
      | inr full ↦ inr (unfinished-Grown id f g.rpcs s.rpcs more.grown k full)
    ] in
    let kept : (e : Entry) × (find id s.rpcs ≡ some e) × (f.granted ≡ e.granted) = elim ends [
      | inl z ↦ (f, ap (λ (x : Round). find id x.rpcs) (spent z) ∙ k, refl)
      | inr full ↦ full-Grown id f g.rpcs s.rpcs more.grown k full
    ] in
    (
      d ∷ new,
      out ∙ unfold give in append_assoc r.out (d ∷ []) new,
      Served-next rank id ids d new s.rpcs
          (record {
            whose = refl;
            ranked = refl;
            entry = kept.0;
            found = kept.1;
            up_to = granted ∙ kept.2;
          })
          last served,
      λ x n. rest x (ground arith) ∙ give_others all id e rank (target_of e r) x r (ground arith),
    )

pub grant_loop-Appends :
    (all : List ℕ) (min_inc : ℕ) (idle : Bool) (rank : ℕ) (ids : List ℕ) (r : Round)
    → IsCapped r.rpcs
    → AllFound ids r.rpcs
    → Appends rank ids r (grant_loop all min_inc idle rank ids r)
unfolding grant_loop
grant_loop-Appends all min_inc idle rank [] r c a = ([], sym (append-nil r.out), tt, λ k n. refl)
grant_loop-Appends all min_inc idle rank (id ∷ ids) r c ((e, h), a) =
    rw (h, grant_loop)
      (if_cases (Appends rank (id ∷ ids) r) (r.available == 0) r _ (λ _. nothing)
        (λ _.
          if_cases (Appends rank (id ∷ ids) r)
            (too_small min_inc (idle && is_empty r.out) e (target_of e r)) _ _ (λ _. nothing)
            (λ _. given-Appends all min_inc idle rank id ids e r c a h (
              grant_loop-Appends all min_inc idle (rank + 1) ids
                (give all id e rank (target_of e r) r) (Grown-IsCapped r.rpcs _ (step.grown) c)
                (AllFound-Grown ids r.rpcs _ step.grown a)))))
  where
    nothing : Appends rank (id ∷ ids) r r
    nothing = ([], sym (append-nil r.out), tt, λ k n. refl)

    step : Given r (give all id e rank (target_of e r) r)
    step = give-Given all id e rank r c h
