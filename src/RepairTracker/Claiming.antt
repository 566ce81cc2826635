-- ===== src/RepairTracker/Claiming.antt =====
-- client/src/reassembly.ts, RepairTracker.claim and detect: what is asked for, and what awaits.
use http.Common.{
  ℕ, ◌+◌, ◌≡◌, refl, sym, subst, true, false, not, ◌&&◌, ◌||◌, List, [], ◌∷◌, ◌++◌, map, ltb, arith,
  ap, ◌∙◌, length,
}
use http.Reassembly.Ranges.{Range, covers}
use http.Reassembly.{Reassembly, missing}
use http.Reassembly.Adding.{IsValid}
use http.Reassembly.Gaps.{missing_lem}
use http.RepairTracker.{RepairTracker, Pending, range_list, uncovered, sort_pending, claim}
use http.RepairTracker.Sweeping.{
  Disjoint, Separated-Disjoint, covers-append, covers-uncovered, uncovered-Disjoint, still_live,
}
use http.RepairTracker.Waiting.{
  live_loop_lem, still_live-Disjoint, Apart, Disjoint-Apart, sort_pending-Disjoint,
  covers-sort_pending, awaited, awaited-append, awaited-sort_pending,
}

-- The ranges that await a repair are in order and disjoint.
pub record IsOrdered (t : RepairTracker) : Type 0 where
  pub apart : Disjoint 0 (range_list t.pending)

-- The RESENDs that `claim` finds live.
abbrev pub live_now : RepairTracker → Reassembly → ℕ → List Pending
live_now t asm now = still_live now (missing asm asm.size) t.pending

-- What `claim` does.
pub record Claimed (t : RepairTracker) (asm : Reassembly) (gaps : List Range) (now delay : ℕ)
    (r : List Range × RepairTracker) : Type 0 where
  pub asked :
      (x : ℕ) → covers r.0 x ≡ (covers gaps x && not (covers (range_list (live_now t asm now)) x))
  pub rising : Disjoint 0 (r.0)
  pub ordered : IsOrdered (r.1)
  pub awaits :
      (x : ℕ)
      → covers (range_list r.1.pending) x
        ≡ (covers (range_list (live_now t asm now)) x || covers gaps x)
  pub due :
      (x later : ℕ)
      → awaited later r.1.pending x
        ≡ (awaited later (live_now t asm now) x || (covers r.0 x && ltb later (now + delay)))
  pub requested : r.1.requested ≡ t.requested + length (r.0)

abbrev sent_at : ℕ → List Range → List Pending
sent_at due = map (λ r. record { range = r; due = due })

range_list-append : (ps qs : List Pending) → range_list (ps ++ qs) ≡ range_list ps ++ range_list qs
range_list-append [] qs = refl
range_list-append (p ∷ ps) qs = ap (◌∷◌ p.range) (range_list-append ps qs)

range_list-sent_at : (due : ℕ) (rs : List Range) → range_list (sent_at due rs) ≡ rs
range_list-sent_at due [] = refl
range_list-sent_at due (r ∷ rs) = ap (◌∷◌ r) (range_list-sent_at due rs)

awaited-sent_at :
    (due later x : ℕ) (rs : List Range)
    → awaited later (sent_at due rs) x ≡ (covers rs x && ltb later due)
awaited-sent_at due later x [] = refl
awaited-sent_at due later x (r ∷ rs) = ground (arith, awaited-sent_at due later x rs)

Apart-append :
    (rs ss : List Range)
    → Apart rs
    → Apart ss
    → ((x : ℕ) → covers rs x ≡ true → covers ss x ≡ false)
    → Apart (rs ++ ss)
Apart-append [] ss a b f = b
Apart-append (r ∷ rs) ss a b f = (
  a.0,
  λ x e. covers-append x rs ss ∙ ground (arith, a.1 x e, f x),
  Apart-append rs ss a.2 b (λ x e. f x (ground arith)),
)

-- `claim` on disjoint gaps in order asks for exactly their bytes that no live RESEND holds, in
-- disjoint ranges in order; a live RESEND is one that is not overdue and overlaps what is missing.
-- Afterwards the live RESENDs and the bytes asked for await their repair, these until
-- `now + delayMs`, without overlap.
pub claim-Claimed :
    (t : RepairTracker) (asm : Reassembly) (gaps : List Range) (now delay : ℕ)
    → IsOrdered t
    → IsValid asm
    → Disjoint 0 gaps
    → Claimed t asm gaps now delay (claim t asm gaps now delay)
unfolding claim
claim-Claimed t asm gaps now delay o v g =
    let holes = Separated-Disjoint 0 (missing asm asm.size) (missing_lem asm asm.size v).1 in
    let sweep = live_loop_lem now 0 0 (missing asm asm.size) t.pending holes o.apart in
    subst (λ live. Claimed t asm gaps now delay (after live)) (sym sweep)
      (record {
        asked = out;
        rising = uncovered-Disjoint 0 0 _ gaps live g;
        ordered = record { apart = sort_pending-Disjoint _ (subst Apart (sym shape) apart) };
        awaits = λ x.
            covers-sort_pending x _
            ∙ (ap (λ rs. covers rs x) shape
                ∙ (covers-append x (range_list (live_now t asm now)) _ ∙ ground (arith, out x)));
        due = λ x later.
            awaited-sort_pending later x _
            ∙ (awaited-append later x (live_now t asm now) _
                ∙ ap (λ b. awaited later (live_now t asm now) x || b)
                    (awaited-sent_at (now + delay) later x _));
        requested = refl;
      })
  where
    live : Disjoint 0 (range_list (live_now t asm now))
    live = still_live-Disjoint now 0 (missing asm asm.size) t.pending o.apart

    rest : List Range
    rest = uncovered (range_list (live_now t asm now)) gaps

    after : List Pending → List Range × RepairTracker
    after ps =
        let found = uncovered (range_list ps) gaps in
        (
          found,
          record t {
            pending = sort_pending (ps ++ sent_at (now + delay) found);
            requested = t.requested + length found;
          },
        )

    out :
        (x : ℕ)
        → covers rest x ≡ (covers gaps x && not (covers (range_list (live_now t asm now)) x))
    out x = covers-uncovered 0 0 x (range_list (live_now t asm now)) gaps live g

    shape :
        range_list (live_now t asm now ++ sent_at (now + delay) rest)
        ≡ range_list (live_now t asm now) ++ rest
    shape =
        range_list-append (live_now t asm now) (sent_at (now + delay) rest)
        ∙ ap (λ rs. range_list (live_now t asm now) ++ rs) (range_list-sent_at (now + delay) rest)

    apart : Apart (range_list (live_now t asm now) ++ rest)
    apart =
        Apart-append (range_list (live_now t asm now)) rest (Disjoint-Apart 0 _ live)
          (Disjoint-Apart 0 rest (uncovered-Disjoint 0 0 _ gaps live g))
          (λ x e. ground (arith, out x))
