-- ===== src/SeqTracker/Looping.antt =====
-- client/src/reassembly.ts, SeqTracker.repeats: its two loops.
use http.Common.{
  ◌<◌, ◌⊎◌, ◌++◌, ℕ, ◌+◌, ◌==◌, Option, none, some, has-lookup, if◌then◌else◌, ◌≤◌, ◌≡◌, refl, sym,
  subst, Bool, true, false, not, ◌&&◌, ◌||◌, List, [], ◌∷◌, ltb, leb, if_cases, Bool-cases, inl,
  inr, has, lookup, mem, Distinct, assign, has-assign, has_absent, mem_absent, Distinct-assign, All,
  length, arith, ap, ◌∙◌,
}
use http.SeqTracker.{
  SeqHint, Claim, keys_where, is_done, Repeats, repeat_loop, trim, max_settled, claim_ttl_ms,
}
use http.SeqTracker.Claims.{mem-keys_where-has}

-- The three cases of a claim: it still waits, it is settled, or it is asked for again.
abbrev pub waits : ℕ → ℕ → Claim → Bool
waits now delay c = ltb now (c.at + delay)

abbrev pub settles : ℕ → ℕ → ℕ → (SeqHint → Bool) → ℕ → Claim → Bool
settles now delay max_tries repaired s c = not (waits now delay c) && is_done max_tries repaired c

abbrev pub asks_again : ℕ → ℕ → ℕ → (SeqHint → Bool) → ℕ → Claim → Bool
asks_again now delay max_tries repaired s c =
    not (waits now delay c) && not (is_done max_tries repaired c)

-- What becomes of a claim: it stays while it waits, goes when it is done, and else counts one more
-- time that it was asked for, now.
abbrev pub next_claim : ℕ → ℕ → ℕ → (SeqHint → Bool) → Option Claim → Option Claim
next_claim now delay max_tries repaired none = none
next_claim now delay max_tries repaired (some c) =
    if waits now delay c
    then some c
    else (if is_done max_tries repaired c
        then none
        else some (record { at = now; tries = c.tries + 1; hint = c.hint }))

abbrev pub AskedAtMost : ℕ → List (ℕ × Claim) → Type 0
AskedAtMost n = All (λ (e : ℕ × Claim). e.1.tries ≤ n)

-- What the loop does with `claimed` and `settled`, when `done` are the numbers to settle and `due`
-- those to ask for again.
pub record Looped (max_tries : ℕ) (claimed : List (ℕ × Claim)) (settled : List (ℕ × ℕ))
    (done due : List ℕ) (r : Repeats) : Type 0 where
  pub kept : (x : ℕ) → has x r.claimed ≡ (has x claimed && not (mem x done))
  pub added : (x : ℕ) → has x r.settled ≡ (has x settled || mem x done)
  pub asked : r.due ≡ due
  pub claimed_once : Distinct r.claimed
  pub settled_once : Distinct r.settled
  pub tries : AskedAtMost max_tries claimed → AskedAtMost max_tries r.claimed

module _ (max_tries s : ℕ) (c : Claim) (rest : List (ℕ × Claim)) (settled : List (ℕ × ℕ))
    (done due : List ℕ) (r : Repeats) (d : has s rest ≡ false) where
  loop_keep :
      (b : Claim)
      → (c.tries ≤ max_tries → b.tries ≤ max_tries)
      → mem s done ≡ false
      → Looped max_tries rest settled done due r
      → (again asks : List ℕ) → again ≡ asks
      → Looped max_tries
          ((s, c) ∷ rest)
          settled
          done
          asks
          (record r { claimed = (s, b) ∷ r.claimed; due = again })
  loop_keep b f m l again asks same = record {
    kept = λ x. ground (arith, l.kept x, mem_absent x s done m);
    added = l.added;
    asked = same;
    claimed_once = (ground (arith, l.kept s, d), l.claimed_once);
    settled_once = l.settled_once;
    tries = λ h. (f h.0, l.tries h.1);
  }

  loop_settle :
      (now : ℕ)
      → Looped max_tries rest (assign s now settled) done due r
      → Looped max_tries ((s, c) ∷ rest) settled (s ∷ done) due r
  loop_settle now l = record {
    kept = λ x. ground (arith, l.kept x, has_absent x s rest d);
    added = λ x. ground (arith, l.added x, has-assign x s now settled);
    asked = l.asked;
    claimed_once = l.claimed_once;
    settled_once = l.settled_once;
    tries = λ h. l.tries h.1;
  }

-- A claim that is not done has been asked for fewer times than the limit.
tries_left :
    (max_tries : ℕ) (repaired : SeqHint → Bool) (c : Claim)
    → is_done max_tries repaired c ≡ false
    → c.tries + 1 ≤ max_tries
unfolding is_done
tries_left max_tries repaired c e = ground arith

module _ (now delay max_tries : ℕ) (repaired : SeqHint → Bool) where
  pub repeat_loop-Looped :
      (claimed : List (ℕ × Claim)) (settled : List (ℕ × ℕ))
      → Distinct claimed
      → Distinct settled
      → Looped max_tries claimed settled
          (keys_where (settles now delay max_tries repaired) claimed)
          (keys_where (asks_again now delay max_tries repaired) claimed)
          (repeat_loop now delay max_tries repaired claimed settled)
  unfolding repeat_loop keys_where
  repeat_loop-Looped [] settled d e = record {
    kept = λ x. refl;
    added = λ x. ground arith;
    asked = refl;
    claimed_once = tt;
    settled_once = e;
    tries = λ h. tt;
  }
  repeat_loop-Looped ((s, c) ∷ rest) settled d e =
      let l = repeat_loop-Looped rest settled d.1 e in
      let none_done = mem-keys_where-has (settles now delay max_tries repaired) s rest d.0 in
      elim (Bool-cases (ltb now (c.at + delay))) [
        | inl w ↦
            rw w (loop_keep max_tries s c rest settled _ _ _ d.0 c (λ h. h) none_done l _ _ l.asked)
        | inr w ↦ elim (Bool-cases (is_done max_tries repaired c)) [
          | inl f ↦ rw w rw f (
              loop_settle max_tries s c rest settled _ _ _ d.0 now (
                repeat_loop-Looped rest (assign s now settled) d.1
                  (Distinct-assign s now settled e)))
          | inr f ↦ rw w rw f (
              loop_keep max_tries s c rest settled _ _ _ d.0
                (record c { at = now; tries = c.tries + 1 })
                (λ h. tries_left max_tries repaired c f) none_done l _ _ (ap (◌∷◌ s) l.asked))
        ]
      ]

absent {ℓ} : {A : Type ℓ} (x : ℕ) (m : List (ℕ × A)) → has x m ≡ false → lookup x m ≡ none
absent x m e = elim (has-lookup x m) [ inl h ↦ h.0 | inr h ↦ absurd (cc (e, h.2)) ]

module _ (now delay max_tries : ℕ) (repaired : SeqHint → Bool) (x : ℕ) where
  pub repeat_loop-next_claim :
      (claimed : List (ℕ × Claim)) (settled : List (ℕ × ℕ))
      → Distinct claimed
      → lookup x (repeat_loop now delay max_tries repaired claimed settled).claimed
        ≡ next_claim now delay max_tries repaired (lookup x claimed)
  unfolding repeat_loop lookup
  repeat_loop-next_claim [] settled d = refl
  repeat_loop-next_claim ((s, c) ∷ rest) settled d =
      let same = repeat_loop-next_claim rest settled d.1 in
      let done = repeat_loop-next_claim rest (assign s now settled) d.1 in
      elim (Bool-cases (x == s)) [
        | inl e ↦
            let here : x ≡ s = ground arith in
            let gone : lookup x rest ≡ none =
              absent x rest (subst (λ z. has z rest ≡ false) (sym here) d.0) in
            elim (Bool-cases (ltb now (c.at + delay))) [
              | inl w ↦ rw w rw e rw w refl
              | inr w ↦ elim (Bool-cases (is_done max_tries repaired c)) [
                | inl f ↦
                    rw w rw f rw e rw w rw f
                      (done ∙ ap (next_claim now delay max_tries repaired) gone)
                | inr f ↦ rw w rw f rw e rw w rw f refl
              ]
            ]
        | inr e ↦ elim (Bool-cases (ltb now (c.at + delay))) [
          | inl w ↦ rw w rw e same
          | inr w ↦ elim (Bool-cases (is_done max_tries repaired c)) [
            | inl f ↦ rw w rw f rw e done
            | inr f ↦ rw w rw f rw e same
          ]
        ]
      ]

-- What the second loop forgets, the oldest first: each when too many were left, or when it was too
-- old.
abbrev pub Forgotten : ℕ → List (ℕ × ℕ) → List (ℕ × ℕ) → Type 0
Forgotten now [] kept = Unit {0}
Forgotten now ((s, at) ∷ gone) kept =
    ((max_settled < length (((s, at) ∷ gone) ++ kept)) ⊎ (at + claim_ttl_ms < now))
    × Forgotten now gone kept

-- The second loop forgets only such numbers, and leaves few enough.
pub record Trimmed (now : ℕ) (settled kept : List (ℕ × ℕ)) : Type 0 where
  pub gone : List (ℕ × ℕ)
  pub rest : settled ≡ gone ++ kept
  pub forgotten : Forgotten now gone kept
  pub few : length kept ≤ max_settled

pub trim-Trimmed : (now : ℕ) (settled : List (ℕ × ℕ)) → Trimmed now settled (trim now settled)
unfolding trim
trim-Trimmed now [] = record { gone = []; rest = refl; forgotten = tt; few = omega arith }
trim-Trimmed now ((s, at) ∷ settled) =
    if_cases (Trimmed now ((s, at) ∷ settled))
      (leb (length ((s, at) ∷ settled)) max_settled && leb now (at + claim_ttl_ms)) _ _
      (λ e. record { gone = []; rest = refl; forgotten = tt; few = ground arith })
      (λ e.
        let t = trim-Trimmed now settled in
        let all : (s, at) ∷ settled ≡ ((s, at) ∷ t.gone) ++ trim now settled =
          ap (◌∷◌ (s, at)) t.rest in
        let why : (max_settled < length ((s, at) ∷ settled)) ⊎ (at + claim_ttl_ms < now) =
          ground arith in
        record {
          gone = (s, at) ∷ t.gone;
          rest = all;
          forgotten = (
            subst (λ (l : List (ℕ × ℕ)). (max_settled < length l) ⊎ (at + claim_ttl_ms < now)) all
                why,
            t.forgotten,
          );
          few = t.few;
        })

has-rest : (x : ℕ) (gone kept : List (ℕ × ℕ)) → has x kept ≡ true → has x (gone ++ kept) ≡ true
has-rest x [] kept e = e
has-rest x ((s, at) ∷ gone) kept e = ground (arith, has-rest x gone kept e)

Distinct-rest : (gone kept : List (ℕ × ℕ)) → Distinct (gone ++ kept) → Distinct kept
Distinct-rest [] kept d = d
Distinct-rest ((s, at) ∷ gone) kept d = Distinct-rest gone kept d.1

pub Trimmed-part :
    (now x : ℕ) (settled kept : List (ℕ × ℕ))
    → Trimmed now settled kept
    → has x kept ≡ true
    → has x settled ≡ true
Trimmed-part now x settled kept t e =
    subst (λ (l : List (ℕ × ℕ)). has x l ≡ true) (sym t.rest) (has-rest x t.gone kept e)

pub Trimmed-Distinct :
    (now : ℕ) (settled kept : List (ℕ × ℕ))
    → Trimmed now settled kept
    → Distinct settled
    → Distinct kept
Trimmed-Distinct now settled kept t d =
    Distinct-rest t.gone kept (subst (Distinct {A = ℕ}) t.rest d)
