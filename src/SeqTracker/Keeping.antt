-- ===== src/SeqTracker/Keeping.antt =====
-- client/src/reassembly.ts, SeqTracker: a number is in at most one of the three maps.
use http.Common.{
  ℕ, zero, suc, ◌+◌, some, lookup, lookup-assign, ◌<◌, ◌≡◌, Bool, true, false, ◌&&◌, ◌||◌, List,
  ltb, leb, if◌then◌else◌, has, Distinct, assign, has-assign, Distinct-assign, arith,
}
use http.SeqTracker.{SeqTracker, Missing, init, note_missing}

-- Missing, claimed or settled.
abbrev pub tracked : SeqTracker → ℕ → Bool
tracked t x = has x t.missing || (has x t.claimed || has x t.settled)

pub record IsValid (t : SeqTracker) : Type 0 where
  pub missing_once : Distinct t.missing
  pub claimed_once : Distinct t.claimed
  pub settled_once : Distinct t.settled
  pub below : (x : ℕ) → tracked t x ≡ true → x < t.next
  pub missing_alone :
      (x : ℕ) → has x t.missing ≡ true → (has x t.claimed || has x t.settled) ≡ false
  pub claimed_alone : (x : ℕ) → has x t.claimed ≡ true → has x t.settled ≡ false

pub init-IsValid : IsValid init
unfolding init
init-IsValid = record {
  missing_once = tt;
  claimed_once = tt;
  settled_once = tt;
  below = λ x e. absurd (cc e);
  missing_alone = λ x e. absurd (cc e);
  claimed_alone = λ x e. absurd (cc e);
}

pub has-note_missing :
    (from count x : ℕ) (m : Missing) (all : List (ℕ × Missing))
    → has x (note_missing from count m all) ≡ (has x all || (leb from x && ltb x (from + count)))
unfolding note_missing
has-note_missing from zero x m all = ground arith
has-note_missing from (suc count) x m all =
    ground
      (arith, has-note_missing (suc from) count x m (assign from m all), has-assign x from m all)

pub lookup-note_missing :
    (from count x : ℕ) (m : Missing) (all : List (ℕ × Missing))
    → lookup x (note_missing from count m all)
      ≡ (if leb from x && ltb x (from + count) then some m else lookup x all)
unfolding note_missing
lookup-note_missing from zero x m all = ground arith
lookup-note_missing from (suc count) x m all = ground (
  arith,
  lookup-note_missing (suc from) count x m (assign from m all),
  lookup-assign x from m all,
)

pub Distinct-note_missing :
    (from count : ℕ) (m : Missing) (all : List (ℕ × Missing))
    → Distinct all
    → Distinct (note_missing from count m all)
unfolding note_missing
Distinct-note_missing from zero m all d = d
Distinct-note_missing from (suc count) m all d =
    Distinct-note_missing (suc from) count m (assign from m all) (Distinct-assign from m all d)
