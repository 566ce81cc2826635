-- ===== src/SeqTracker/Tracking.antt =====
-- client/src/reassembly.ts, SeqTracker.arrive: what an arriving number is, and what it changes.
use http.Common.{
  ℕ, ◌+◌, ◌-◌, max, ◌∙◌, some, lookup, lookup-erase_other, ◌≤◌, ◌<◌, ◌≡◌, ◌≢◌, ◌↔◌, refl, true,
  false, not, ◌&&◌, ◌||◌, Option, List, ltb, leb, ◌==◌, if◌then◌else◌, if_cases, Bool-cases, inl,
  inr, has, Distinct, erase, has-erase, Distinct-erase, arith,
}
use http.SeqTracker.{
  SeqTracker, SeqHint, Missing, SeqArrival, fresh, reordered, spurious, duplicate, arrive,
  note_missing, max_gap, hint_between,
}
use http.SeqTracker.Keeping.{
  tracked, IsValid, has-note_missing, lookup-note_missing, Distinct-note_missing,
}

-- The entry of the numbers of a gap.
abbrev pub gap_entry : SeqTracker → ℕ → ℕ → Option SeqHint → Missing
gap_entry t seq now place = record { since = now; hint = hint_between t.last place (seq - t.next) }

-- What an arrival does: the number is known from then on and in no map; every other entry of the
-- three maps stays as it was, and the numbers of a gap, if it is not too wide, come into `missing`.
pub record Arrived (t : SeqTracker) (seq now : ℕ) (place : Option SeqHint)
    (r : SeqArrival × SeqTracker) : Type 0 where
  pub valid : IsValid (r.1)
  pub known : seq < r.1.next
  pub gone : tracked r.1 seq ≡ false
  pub next : r.1.next ≡ max t.next (seq + 1)
  pub missing :
      (x : ℕ)
      → x ≢ seq
      → lookup x r.1.missing ≡ (
          if leb t.next x && (ltb x seq && leb (seq - t.next) max_gap)
          then some (gap_entry t seq now place)
          else lookup x t.missing)
  pub claimed : (x : ℕ) → x ≢ seq → lookup x r.1.claimed ≡ lookup x t.claimed
  pub settled : (x : ℕ) → x ≢ seq → lookup x r.1.settled ≡ lookup x t.settled
  pub answer :
      ((r.0 ≡ fresh) ↔ (t.next ≤ seq))
      × ((r.0 ≡ reordered) ↔ (has seq t.missing ≡ true))
      × ((r.0 ≡ spurious) ↔ ((has seq t.claimed || has seq t.settled) ≡ true))

-- The numbers of a gap, if it is not too wide, join `missing`.
noted :
    (t : SeqTracker) (seq : ℕ) (m : Missing)
    → IsValid t
    → t.next ≤ seq
    → let all =
        if leb (seq - t.next) max_gap
        then note_missing t.next (seq - t.next) m t.missing
        else t.missing in
      Distinct all
      × ((x : ℕ)
          → has x all
            ≡ (has x t.missing || (leb (seq - t.next) max_gap && (leb t.next x && ltb x seq))))
      × ((x : ℕ)
          → lookup x all ≡ (
              if leb t.next x && (ltb x seq && leb (seq - t.next) max_gap)
              then some m
              else lookup x t.missing))
noted t seq m v h = elim (Bool-cases (leb (seq - t.next) max_gap)) [
  | inl e ↦ rw e (
    Distinct-note_missing t.next (seq - t.next) m t.missing v.missing_once,
    λ x. ground (arith, has-note_missing t.next (seq - t.next) x m t.missing),
    λ x. ground (arith, lookup-note_missing t.next (seq - t.next) x m t.missing),
  )
  | inr e ↦ rw e (v.missing_once, λ x. ground arith, λ x. ground arith)
]

arrive_fresh :
    (t : SeqTracker) (seq now : ℕ) (place : Option SeqHint) (all : List (ℕ × Missing))
    → IsValid t
    → t.next ≤ seq
    → Distinct all
    → ((x : ℕ)
        → has x all
          ≡ (has x t.missing || (leb (seq - t.next) max_gap && (leb t.next x && ltb x seq))))
    → ((x : ℕ)
        → lookup x all ≡ (
            if leb t.next x && (ltb x seq && leb (seq - t.next) max_gap)
            then some (gap_entry t seq now place)
            else lookup x t.missing))
    → Arrived t seq now place (fresh, record t { next = seq + 1; last = place; missing = all })
arrive_fresh t seq now place all v h d n l = record {
  valid = record {
    missing_once = d;
    claimed_once = v.claimed_once;
    settled_once = v.settled_once;
    below = λ x e. ground (arith, n x, v.below x);
    missing_alone = λ x e. ground (arith, n x, v.below x, v.missing_alone x);
    claimed_alone = v.claimed_alone;
  };
  known = omega arith;
  gone = ground (arith, n seq, v.below seq);
  next = omega arith;
  missing = λ x k. l x;
  claimed = λ x k. refl;
  settled = λ x k. refl;
  answer = (ground arith, ground (arith, v.below seq), ground (arith, v.below seq));
}

other_key : (x seq : ℕ) → x ≢ seq → (x == seq) ≡ false
other_key x seq k = ground (arith, k)

module _ (t : SeqTracker) (seq now : ℕ) (place : Option SeqHint) (v : IsValid t)
    (h : leb t.next seq ≡ false) where
  -- The number is below `next`, so there is no gap.
  no_gap :
      (x : ℕ)
      → lookup x t.missing ≡ (
          if leb t.next x && (ltb x seq && leb (seq - t.next) max_gap)
          then some (gap_entry t seq now place)
          else lookup x t.missing)
  no_gap x = ground arith

  arrive_missing :
      has seq t.missing ≡ true
      → Arrived t seq now place (reordered, record t { missing = erase seq t.missing })
  arrive_missing e =
      let n : ((x : ℕ) → has x (erase seq t.missing) ≡ (not (x == seq) && has x t.missing)) =
        λ x. has-erase x seq t.missing v.missing_once in
      record {
        valid = record {
          missing_once = Distinct-erase seq t.missing v.missing_once;
          claimed_once = v.claimed_once;
          settled_once = v.settled_once;
          below = λ x k. ground (arith, n x, v.below x);
          missing_alone = λ x k. ground (arith, n x, v.missing_alone x);
          claimed_alone = v.claimed_alone;
        };
        known = ground arith;
        gone = ground (arith, n seq, v.missing_alone seq);
        next = ground arith;
        missing = λ x k. lookup-erase_other x seq t.missing (other_key x seq k) ∙ no_gap x;
        claimed = λ x k. refl;
        settled = λ x k. refl;
        answer = (ground arith, ground arith, ground (arith, v.missing_alone seq));
      }

  arrive_claimed :
      has seq t.missing ≡ false
      → has seq t.claimed ≡ true
      → Arrived t seq now place (spurious, record t { claimed = erase seq t.claimed })
  arrive_claimed e f =
      let n : ((x : ℕ) → has x (erase seq t.claimed) ≡ (not (x == seq) && has x t.claimed)) =
        λ x. has-erase x seq t.claimed v.claimed_once in
      record {
        valid = record {
          missing_once = v.missing_once;
          claimed_once = Distinct-erase seq t.claimed v.claimed_once;
          settled_once = v.settled_once;
          below = λ x k. ground (arith, n x, v.below x);
          missing_alone = λ x k. ground (arith, n x, v.missing_alone x);
          claimed_alone = λ x k. ground (arith, n x, v.claimed_alone x);
        };
        known = ground arith;
        gone = ground (arith, n seq, v.claimed_alone seq);
        next = ground arith;
        missing = λ x k. no_gap x;
        claimed = λ x k. lookup-erase_other x seq t.claimed (other_key x seq k);
        settled = λ x k. refl;
        answer = (ground arith, ground arith, ground arith);
      }

  arrive_settled :
      has seq t.missing ≡ false
      → has seq t.claimed ≡ false
      → has seq t.settled ≡ true
      → Arrived t seq now place (spurious, record t { settled = erase seq t.settled })
  arrive_settled e f g =
      let n : ((x : ℕ) → has x (erase seq t.settled) ≡ (not (x == seq) && has x t.settled)) =
        λ x. has-erase x seq t.settled v.settled_once in
      record {
        valid = record {
          missing_once = v.missing_once;
          claimed_once = v.claimed_once;
          settled_once = Distinct-erase seq t.settled v.settled_once;
          below = λ x k. ground (arith, n x, v.below x);
          missing_alone = λ x k. ground (arith, n x, v.missing_alone x);
          claimed_alone = λ x k. ground (arith, n x, v.claimed_alone x);
        };
        known = ground arith;
        gone = ground (arith, n seq);
        next = ground arith;
        missing = λ x k. no_gap x;
        claimed = λ x k. refl;
        settled = λ x k. lookup-erase_other x seq t.settled (other_key x seq k);
        answer = (ground arith, ground arith, ground arith);
      }

  arrive_duplicate :
      has seq t.missing ≡ false
      → has seq t.claimed ≡ false
      → has seq t.settled ≡ false
      → Arrived t seq now place (duplicate, t)
  arrive_duplicate e f g = record {
    valid = v;
    known = ground arith;
    gone = ground arith;
    next = ground arith;
    missing = λ x k. no_gap x;
    claimed = λ x k. refl;
    settled = λ x k. refl;
    answer = (ground arith, ground arith, ground arith);
  }

pub arrive-Arrived :
    (t : SeqTracker) (seq now : ℕ) (place : Option SeqHint)
    → IsValid t
    → Arrived t seq now place (arrive t seq now place)
unfolding arrive
arrive-Arrived t seq now place v =
    if_cases (Arrived t seq now place) (leb t.next seq) _ _
      (λ h.
        let k : t.next ≤ seq = ground arith in
        let n = noted t seq (gap_entry t seq now place) v k in
        arrive_fresh t seq now place _ v k n.0 n.1 n.2)
      (λ h.
        if_cases (Arrived t seq now place) (has seq t.missing) _ _
          (arrive_missing t seq now place v h)
          (λ e.
            if_cases (Arrived t seq now place) (has seq t.claimed) _ _
              (arrive_claimed t seq now place v h e)
              (λ f.
                if_cases (Arrived t seq now place) (has seq t.settled) _ _
                  (arrive_settled t seq now place v h e f)
                  (arrive_duplicate t seq now place v h e f))))

known-duplicate :
    (t : SeqTracker) (seq later : ℕ) (place : Option SeqHint)
    → seq < t.next
    → tracked t seq ≡ false
    → (arrive t seq later place).0 ≡ duplicate
unfolding arrive
known-duplicate t seq later place k g = ground arith

-- A number that arrives again is a duplicate.
pub arrive_again :
    (t : SeqTracker) (seq now later : ℕ) (place place2 : Option SeqHint)
    → IsValid t
    → (arrive (arrive t seq now place).1 seq later place2).0 ≡ duplicate
arrive_again t seq now later place place2 v =
    let a = arrive-Arrived t seq now place v in
    known-duplicate (arrive t seq now place).1 seq later place2 a.known a.gone
