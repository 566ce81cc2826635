-- ===== src/RepairTracker/Waiting.antt =====
-- client/src/reassembly.ts, RepairTracker: the list of RESENDs that await their repair.
use http.Common.{
  ℕ, ◌≤◌, ◌<◌, ◌≡◌, refl, Bool, true, false, ◌&&◌, ◌||◌, List, [], ◌∷◌, ◌++◌, ltb, leb, if_cases,
  Bool-cases, inl, inr, arith, ap, ◌∙◌,
}
use http.Reassembly.Ranges.{Range, covers, within}
use http.RepairTracker.{Pending, drop_ended, live_loop, range_list, insert_pending, sort_pending}
use http.RepairTracker.Sweeping.{
  Disjoint, Disjoint-widen, covers-Disjoint, overlaps, still_live, opens-overlaps,
  overlaps-drop_ended, drop_ended-Disjoint,
}

still_live-drop_ended :
    (now at lo : ℕ) (holes : List Range) (ps : List Pending)
    → at ≤ lo
    → Disjoint lo (range_list ps)
    → still_live now (drop_ended at holes) ps ≡ still_live now holes ps
still_live-drop_ended now at lo holes [] h d = refl
still_live-drop_ended now at lo holes (p ∷ ps) h d =
    let rest = still_live-drop_ended now at p.range.stop holes ps (omega (arith, d.0, d.1)) d.2 in
    rw (overlaps-drop_ended at p.range holes (omega (arith, d.0))) rw rest refl

-- The sweep of `claim` finds exactly the RESENDs that are not overdue and overlap a hole.
pub live_loop_lem :
    (now lo low : ℕ) (holes : List Range) (ps : List Pending)
    → Disjoint low holes
    → Disjoint lo (range_list ps)
    → live_loop now holes ps ≡ still_live now holes ps
unfolding live_loop
live_loop_lem now lo low holes [] g d = refl
live_loop_lem now lo low holes (p ∷ ps) g d =
    let e = drop_ended-Disjoint p.range.start low holes g in
    let skipped = live_loop_lem now p.range.stop low holes ps g d.2 in
    let rest =
      live_loop_lem now p.range.stop low (drop_ended p.range.start holes) ps e d.2
      ∙ still_live-drop_ended now p.range.start p.range.stop holes ps (omega (arith, d.1)) d.2 in
    let here = opens-overlaps low p.range holes g in
    rw here rw rest rw skipped (elim (Bool-cases (ltb now p.due)) [
      | inl h ↦ let late : leb p.due now ≡ false = ground arith in rw late rw h refl
      | inr h ↦ let late : leb p.due now ≡ true = ground arith in rw late rw h refl
    ])

pub still_live-Disjoint :
    (now lo : ℕ) (holes : List Range) (ps : List Pending)
    → Disjoint lo (range_list ps)
    → Disjoint lo (range_list (still_live now holes ps))
still_live-Disjoint now lo holes [] d = tt
still_live-Disjoint now lo holes (p ∷ ps) d =
    let rest = still_live-Disjoint now p.range.stop holes ps d.2 in
    if_cases (λ (l : List Pending). Disjoint lo (range_list l))
      (ltb now p.due && overlaps holes p.range) _ _ (λ e. (d.0, d.1, rest))
      (λ e. Disjoint-widen p.range.stop lo _ (omega (arith, d.0, d.1)) rest)

-- No byte twice, and no range empty, in whatever order.
abbrev pub Apart : List Range → Type 0
Apart [] = Unit {0}
Apart (r ∷ rs) = (r.start < r.stop) × ((x : ℕ) → within r x ≡ true → covers rs x ≡ false) × Apart rs

pub Disjoint-Apart : (lo : ℕ) (rs : List Range) → Disjoint lo rs → Apart rs
Disjoint-Apart lo [] d = tt
Disjoint-Apart lo (r ∷ rs) d =
    (d.1, λ x e. covers-Disjoint r.stop x rs d.2 (ground arith), Disjoint-Apart r.stop rs d.2)

covers-insert_pending :
    (x : ℕ) (p : Pending) (ps : List Pending)
    → covers (range_list (insert_pending p ps)) x ≡ (within p.range x || covers (range_list ps) x)
unfolding insert_pending
covers-insert_pending x p [] = refl
covers-insert_pending x p (q ∷ qs) =
    if_cases
      (λ (l : List Pending).
        covers (range_list l) x
        ≡ (within p.range x || (within q.range x || covers (range_list qs) x)))
      (leb p.range.start q.range.start) _ _ (λ e. refl)
      (λ e. ground (arith, covers-insert_pending x p qs))

pub covers-sort_pending :
    (x : ℕ) (ps : List Pending) → covers (range_list (sort_pending ps)) x ≡ covers (range_list ps) x
unfolding sort_pending
covers-sort_pending x [] = refl
covers-sort_pending x (p ∷ ps) =
    covers-insert_pending x p (sort_pending ps)
    ∙ ap (λ b. within p.range x || b) (covers-sort_pending x ps)

insert_pending-Disjoint :
    (lo : ℕ) (p : Pending) (ps : List Pending)
    → lo ≤ p.range.start
    → p.range.start < p.range.stop
    → ((x : ℕ) → within p.range x ≡ true → covers (range_list ps) x ≡ false)
    → Disjoint lo (range_list ps)
    → Disjoint lo (range_list (insert_pending p ps))
unfolding insert_pending
insert_pending-Disjoint lo p [] h k f d = (h, k, tt)
insert_pending-Disjoint lo p (q ∷ qs) h k f d =
    if_cases (λ (l : List Pending). Disjoint lo (range_list l)) (leb p.range.start q.range.start) _
      _ (λ e. (h, k, (ground (arith, f q.range.start, d.1), d.1, d.2)))
      (λ e. (
        d.0,
        d.1,
        insert_pending-Disjoint q.range.stop p qs (ground (arith, f p.range.start)) k
            (λ x g. ground (arith, f x g)) d.2,
      ))

pub sort_pending-Disjoint :
    (ps : List Pending) → Apart (range_list ps) → Disjoint 0 (range_list (sort_pending ps))
unfolding sort_pending
sort_pending-Disjoint [] a = tt
sort_pending-Disjoint (p ∷ ps) a =
    insert_pending-Disjoint 0 p (sort_pending ps) (omega arith) a.0
      (λ x e. covers-sort_pending x ps ∙ a.1 x e) (sort_pending-Disjoint ps a.2)

-- Whether a RESEND of the byte is not overdue.
abbrev pub awaited : ℕ → List Pending → ℕ → Bool
awaited now [] x = false
awaited now (p ∷ ps) x = (within p.range x && ltb now p.due) || awaited now ps x

pub awaited-append :
    (now x : ℕ) (ps qs : List Pending)
    → awaited now (ps ++ qs) x ≡ (awaited now ps x || awaited now qs x)
awaited-append now x [] qs = refl
awaited-append now x (p ∷ ps) qs = ground (arith, awaited-append now x ps qs)

awaited-insert_pending :
    (now x : ℕ) (p : Pending) (ps : List Pending)
    → awaited now (insert_pending p ps) x ≡ awaited now (p ∷ ps) x
unfolding insert_pending
awaited-insert_pending now x p [] = refl
awaited-insert_pending now x p (q ∷ qs) =
    if_cases (λ (l : List Pending). awaited now l x ≡ awaited now (p ∷ q ∷ qs) x)
      (leb p.range.start q.range.start) _ _ (λ e. refl)
      (λ e. ground (arith, awaited-insert_pending now x p qs))

pub awaited-sort_pending :
    (now x : ℕ) (ps : List Pending) → awaited now (sort_pending ps) x ≡ awaited now ps x
unfolding sort_pending
awaited-sort_pending now x [] = refl
awaited-sort_pending now x (p ∷ ps) =
    awaited-insert_pending now x p (sort_pending ps)
    ∙ ap (λ b. (within p.range x && ltb now p.due) || b) (awaited-sort_pending now x ps)
