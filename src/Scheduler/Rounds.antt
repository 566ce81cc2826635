-- ===== src/Scheduler/Rounds.antt =====
-- The loop of `grants`: it spends only what is free, raises grants only, and serves the candidates
-- strictly in their order.
use http.Common.{
  ℕ, ◌+◌, ◌≤◌, ◌≡◌, inl, inr, min, Bool, ◌&&◌, some, Option-cases, List, [], ◌∷◌, arith, ◌==◌,
  if_cases, All,
}
use http.Scheduler.{Entry, Rpcs, Round, find, outstanding, give, too_small, grant_loop, is_empty}
use http.Scheduler.Entries.{Grown, Grown-refl, Grown-trans, modify-Grown, outstanding-modify}

-- What one pass of the loop body does.
pub record Given (r s : Round) : Type 0 where
  pub grown : Grown r.rpcs s.rpcs
  pub spent : outstanding s.rpcs + s.available ≤ outstanding r.rpcs + r.available

abbrev pub target_of : Entry → Round → ℕ
target_of e r = min e.size (e.granted + r.available)

abbrev pub IsCapped : Rpcs → Type 0
IsCapped = All (λ c. c.1.granted ≤ c.1.size)

pub find-capped :
    (id : ℕ) (q : Rpcs) (e : Entry) → IsCapped q → find id q ≡ some e → e.granted ≤ e.size
unfolding find
find-capped id [] e c h = absurd (cc h)
find-capped id ((k, f) ∷ q) e c h = ground (arith, c.0, find-capped id q e c.1)

pub give-Given :
    (all : List ℕ) (id : ℕ) (e : Entry) (rank : ℕ) (r : Round)
    → IsCapped r.rpcs
    → find id r.rpcs ≡ some e
    → Given r (give all id e rank (target_of e r) r)
unfolding give
give-Given all id e rank r c h =
    let k : e.granted ≤ e.size = find-capped id r.rpcs e c h in
    record {
      grown = modify-Grown id (target_of e r) e r.rpcs h (omega arith) (omega arith);
      spent = omega (arith, outstanding-modify id (target_of e r) e r.rpcs h);
    }

Given-refl : (r : Round) → Given r r
Given-refl r = record { grown = Grown-refl r.rpcs; spent = omega arith }

Given-trans : (q r s : Round) → Given q r → Given r s → Given q s
Given-trans q r s g h = record {
  grown = Grown-trans q.rpcs r.rpcs s.rpcs g.grown h.grown;
  spent = omega (arith, g.spent, h.spent);
}

pub Grown-IsCapped : (q r : Rpcs) → Grown q r → IsCapped q → IsCapped r
Grown-IsCapped [] [] g c = tt
Grown-IsCapped [] (d ∷ r) g c = absurd g
Grown-IsCapped (b ∷ q) [] g c = absurd g
Grown-IsCapped (b ∷ q) (d ∷ r) (k, up, g) c =
    (ground (arith, up.cap, up.same_size, c.0), Grown-IsCapped q r g c.1)

pub grant_loop-Given :
    (all : List ℕ) (min_inc : ℕ) (idle : Bool) (rank : ℕ) (ids : List ℕ) (r : Round)
    → IsCapped r.rpcs
    → Given r (grant_loop all min_inc idle rank ids r)
unfolding grant_loop
grant_loop-Given all min_inc idle rank [] r c = Given-refl r
grant_loop-Given all min_inc idle rank (id ∷ ids) r c = elim (Option-cases (find id r.rpcs)) [
  | inl e ↦ rw (e, grant_loop) (grant_loop-Given all min_inc idle (rank + 1) ids r c)
  | inr (f, e) ↦
      rw (e, grant_loop)
        (if_cases (Given r) (r.available == 0) r _ (λ _. Given-refl r)
          (λ _.
            if_cases (Given r) (too_small min_inc (idle && is_empty r.out) f (target_of f r)) _ _
              (λ _. record { grown = Grown-refl r.rpcs; spent = omega arith })
              (λ _.
                let g = give-Given all id f rank r c e in
                Given-trans r _ _ g (
                  grant_loop-Given all min_inc idle (rank + 1) ids
                    (give all id f rank (target_of f r) r) (Grown-IsCapped r.rpcs _ g.grown c)))))
]
