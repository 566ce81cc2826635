-- ===== src/Scheduler/History.antt =====
-- Any history of calls on a scheduler, and that an idle session is granted something.
use http.Common.{
  ℕ, ◌+◌, ◌≤◌, ◌<◌, ◌≡◌, ◌≢◌, refl, ap, inl, inr, Bool, true, ◌&&◌, Option, Option-cases, List, [],
  ◌∷◌, ◌++◌, arith, leb, ◌==◌, if_cases,
}
use http.Priority.{PriorityClass}
use http.Scheduler.{
  Entry, Rpcs, Scheduler, GrantDecision, GrantTrace, Round, find, modify, put, delete, outstanding,
  give, too_small, grant_loop, is_empty, min_grant, candidates, grants, init, set_budget, add,
  remove, on_data, set_paused,
}
use http.Scheduler.Rounds.{IsCapped, target_of, Grown-IsCapped}
use http.Scheduler.Strict.{AllFound}
use http.Scheduler.Candidates.{candidates-found}
use http.Scheduler.Granting.{Granted, grants-Granted}

-- The calls that the transport makes.
pub data Call : Type 0 where
  sets_budget : ℕ → Call
  adds : ℕ → ℕ → ℕ → ℕ → PriorityClass → Call
  removes : ℕ → Call
  receives : ℕ → ℕ → Call
  pauses : ℕ → Bool → Call
  asks : ℕ → Call

unfoldable pub step : Scheduler → Call → Scheduler
step s (sets_budget b) = set_budget s b
step s (adds id size granted received cls) = add s id size granted received cls
step s (removes id) = remove s id
step s (receives id bytes) = on_data s id bytes
step s (pauses id p) = set_paused s id p
step s (asks reserved) = (grants s reserved).1

pub run : Scheduler → List Call → Scheduler
run s [] = s
run s (c ∷ cs) = run (step s c) cs

put-IsCapped :
    (id : ℕ) (e : Entry) (q : Rpcs) → e.granted ≤ e.size → IsCapped q → IsCapped (put id e q)
unfolding put
put-IsCapped id e [] h c = (h, tt)
put-IsCapped id e ((k, f) ∷ q) h c =
    if_cases IsCapped (k == id) _ _ (λ _. (h, c.1)) (λ _. (c.0, put-IsCapped id e q h c.1))

delete-IsCapped : (id : ℕ) (q : Rpcs) → IsCapped q → IsCapped (delete id q)
unfolding delete
delete-IsCapped id [] c = tt
delete-IsCapped id ((k, f) ∷ q) c =
    if_cases IsCapped (k == id) _ _ (λ _. c.1) (λ _. (c.0, delete-IsCapped id q c.1))

modify-IsCapped :
    (id : ℕ) (f : Entry → Entry) (q : Rpcs)
    → ((e : Entry) → e.granted ≤ e.size → (f e).granted ≤ (f e).size)
    → IsCapped q
    → IsCapped (modify id f q)
unfolding modify
modify-IsCapped id f [] h c = tt
modify-IsCapped id f ((k, e) ∷ q) h c =
    if_cases IsCapped (k == id) _ _ (λ _. (h e c.0, c.1)) (λ _. (c.0, modify-IsCapped id f q h c.1))

pub step-IsCapped : (s : Scheduler) (c : Call) → IsCapped s.rpcs → IsCapped (step s c).rpcs
unfolding step set_budget add remove on_data set_paused
step-IsCapped s (sets_budget b) h = h
step-IsCapped s (adds id size granted received cls) h = put-IsCapped id _ s.rpcs (omega arith) h
step-IsCapped s (removes id) h = delete-IsCapped id s.rpcs h
step-IsCapped s (receives id bytes) h = modify-IsCapped id _ s.rpcs (λ e k. k) h
step-IsCapped s (pauses id p) h = modify-IsCapped id _ s.rpcs (λ e k. k) h
step-IsCapped s (asks reserved) h = Grown-IsCapped s.rpcs _ (grants-Granted s reserved h).grown h

run-IsCapped : (s : Scheduler) (cs : List Call) → IsCapped s.rpcs → IsCapped (run s cs).rpcs
unfolding run
run-IsCapped s [] h = h
run-IsCapped s (c ∷ cs) h = run-IsCapped (step s c) cs (step-IsCapped s c h)

-- After any history of calls on a new scheduler: no transfer is granted more than its size, and
-- `grants` keeps what the record `Granted` says.
pub run-Granted :
    (budget min_increment : ℕ) (trace : Option (List GrantTrace)) (cs : List Call) (reserved : ℕ)
    → let s = run (init budget min_increment trace) cs in
      IsCapped s.rpcs × Granted s reserved (grants s reserved)
run-Granted budget min_increment trace cs reserved =
    let c : IsCapped (run (init budget min_increment trace) cs).rpcs =
      run-IsCapped (init budget min_increment trace) cs (unfold init in tt) in
    (c, grants-Granted _ reserved c)

append-ne-nil {ℓ} : {A : Type ℓ} (xs : List A) (y : A) → xs ++ (y ∷ []) ≢ []
append-ne-nil [] y e = cc e
append-ne-nil (x ∷ xs) y e = cc e

-- Grants given are not taken back.
grant_loop-nonempty :
    (all : List ℕ) (min_inc : ℕ) (idle : Bool) (rank : ℕ) (ids : List ℕ) (r : Round)
    → r.out ≢ []
    → (grant_loop all min_inc idle rank ids r).out ≢ []
unfolding grant_loop
grant_loop-nonempty all min_inc idle rank [] r n = n
grant_loop-nonempty all min_inc idle rank (id ∷ ids) r n = elim (Option-cases (find id r.rpcs)) [
  | inl h ↦ rw (h, grant_loop) (grant_loop-nonempty all min_inc idle (rank + 1) ids r n)
  | inr (e, h) ↦
      rw (h, grant_loop)
        (if_cases (λ (s : Round). s.out ≢ []) (r.available == 0) r _ (λ _. n)
          (λ _.
            if_cases (λ (s : Round). s.out ≢ [])
              (too_small min_inc (idle && is_empty r.out) e (target_of e r)) _ _ (λ _. n)
              (λ _.
                grant_loop-nonempty all min_inc idle (rank + 1) ids
                  (give all id e rank (target_of e r) r) (unfold give in append-ne-nil r.out _))))
]

-- The first candidate of an idle session takes a grant, however small the room is.
grant_loop_idle :
    (all : List ℕ) (min_inc rank id : ℕ) (ids : List ℕ) (r : Round)
    → AllFound (id ∷ ids) r.rpcs
    → 0 < r.available
    → r.out ≡ []
    → (grant_loop all min_inc true rank (id ∷ ids) r).out ≢ []
unfolding grant_loop too_small
grant_loop_idle all min_inc rank id ids r ((e, h), a) room none_yet =
    rw (h, grant_loop)
      (if_cases (λ (s : Round). s.out ≢ []) (r.available == 0) r _ (λ z. absurd (ground arith))
        (λ _.
          if_cases (λ (s : Round). s.out ≢ [])
            (too_small min_inc (true && is_empty r.out) e (target_of e r)) _ _
            (λ z. absurd (ground (arith, ap is_empty none_yet)))
            (λ _.
              grant_loop-nonempty all min_inc true (rank + 1) ids
                (give all id e rank (target_of e r) r) (unfold give in append-ne-nil r.out _))))

idle_start :
    (all ids : List ℕ) (min_inc : ℕ) (r : Round)
    → ids ≢ []
    → AllFound ids r.rpcs
    → 0 < r.available
    → r.out ≡ []
    → (grant_loop all min_inc true 0 ids r).out ≢ []
idle_start all [] min_inc r n a h e = absurd (n refl)
idle_start all (id ∷ ids) min_inc r n a h e = grant_loop_idle all min_inc 0 id ids r a h e

-- With nothing in flight and room in the budget, some candidate is granted something, whatever
-- `minIncrement` is: an idle session starts again.
pub grants_restart :
    (s : Scheduler) (reserved : ℕ)
    → outstanding s.rpcs ≡ 0
    → reserved < s.budget
    → candidates s.rpcs ≢ []
    → (grants s reserved).0 ≢ []
unfolding grants
grants_restart s reserved idle room some_wait =
    if_cases (λ (r : List GrantDecision × Scheduler). r.0 ≢ [])
      (leb s.budget (reserved + outstanding s.rpcs)) _ _ (λ h. absurd (ground arith))
      (λ h. rw (zero_flight) (
        idle_start (candidates s.rpcs) (candidates s.rpcs) (min_grant s) _ some_wait
          (candidates-found s.rpcs) (omega arith) refl))
  where
    zero_flight : (outstanding s.rpcs == 0) ≡ true
    zero_flight = ground arith
