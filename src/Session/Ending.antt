-- ===== src/Session/Ending.antt =====
-- client/src/transport.ts: how transfers end: a failure, a session that ends, and a stall.
use http.Common.{
  ℕ, ◌≡◌, refl, sym, ap, ◌∙◌, subst, inl, inr, ◌==◌, Bool, true, false, ◌||◌, Option, none, some,
  List, [], ◌∷◌, arith, lookup, erase, has, has-erase, has_absent, Distinct, Bool-cases, if_cases,
  if◌then◌else◌,
}
use http.Wire.Checks.{Utf8}
use http.Session.State.{Floats, Session, Transfer, Answer, failure, Failure}
use http.Session.Finishing
use http.Session.Opening.{ClientOptions}
use http.Session.Sound.{View}
use http.Session.Views.{Holds}
use http.Session.Keys.{has_missed, has-assign_there, pump_grants-Holds}
use http.Session.Settling.{Good, take_found}
use http.Session.Ticking.{fail_found-Good}
use http.Session.Reaching.{Reachable, Reachable-Good}

-- No transfer `id`, and its promise is rejected with `why`.
abbrev IsRejected : ℕ → Failure → View → Type 0
IsRejected id why v = (has id v.0 ≡ false) × (lookup id v.1 ≡ some (failure why))

-- In flight or settled.
abbrev IsKnown : ℕ → View → Type 0
IsKnown id v = (has id v.0 || has id v.1) ≡ true

-- The transfers in flight are among those of a list.
abbrev IsAmong : List (ℕ × Transfer) → View → Type 0
IsAmong ts v = (k : ℕ) → has k v.0 ≡ true → has k ts ≡ true

known_after :
    (id k : ℕ) (ts : List (ℕ × Transfer)) (answers : List (ℕ × Answer)) (settled : Bool)
    (a : Answer)
    → Distinct ts
    → has k answers ≡ settled
    → (has id ts || has id answers) ≡ true
    → (has id (erase k ts) || has id (if settled then answers else (k, a) ∷ answers)) ≡ true
known_after id k ts answers settled a d is known = elim (Bool-cases (id == k)) [
  | inl h ↦
      let same : k ≡ id = ground arith in
      let here : has id answers ≡ settled = subst (λ n. has n answers ≡ settled) same is in
      if_cases (λ l. (has id (erase k ts) || has id l) ≡ true) settled _ _
        (λ e. ground (arith, here)) (λ e. ground arith)
  | inr h ↦
      if_cases (λ l. (has id (erase k ts) || has id l) ≡ true) settled _ _
        (λ e. ground (arith, has-erase id k ts d)) (λ e. ground (arith, has-erase id k ts d))
]

no_keys : (ts : List (ℕ × Transfer)) → ((k : ℕ) → has k ts ≡ true → false ≡ true) → ts ≡ []
no_keys [] h = refl
no_keys ((k, t) ∷ ts) h = let e : false ≡ true = h k (ground arith) in cc e

module _ (f : Floats) where
  -- A failure of a transfer that is not settled takes it out of the map and rejects its promise.
  pub fail-IsRejected :
      (now : ℕ) (t : Transfer) (why : Failure) (s : Session f)
      → Distinct s.transfers
      → t.settled ≡ false
      → let r = Finishing.fail f now t why s in
        (has t.rpc_id r.transfers ≡ false) × (lookup t.rpc_id r.answers ≡ some (failure why))
  unfolding Finishing.fail Finishing.settle Finishing.forget lookup
  fail-IsRejected now t why s d n =
      (pump_grants-Holds f (IsRejected t.rpc_id why)
        (λ v id a b e p. (has-assign_there t.rpc_id id a b v.0 e ∙ p.0, p.1)) (λ v q p. p) now _
        (record {
          holds = (ground (arith, has-erase t.rpc_id t.rpc_id s.transfers d), ground arith);
        })).holds

  -- A failure keeps a known transfer known.
  fail-IsKnown :
      (id now : ℕ) (t : Transfer) (why : Failure) (s : Session f)
      → Distinct s.transfers
      → has t.rpc_id s.answers ≡ t.settled
      → Holds f (IsKnown id) s
      → Holds f (IsKnown id) (Finishing.fail f now t why s)
  unfolding Finishing.fail Finishing.settle Finishing.forget
  fail-IsKnown id now t why s d n h =
      pump_grants-Holds f (IsKnown id)
        (λ v k a b e p. ap (λ c. c || has id v.1) (has-assign_there id k a b v.0 e) ∙ p)
        (λ v q p. p) now _
        (record { holds = known_after id t.rpc_id s.transfers s.answers t.settled _ d n h.holds })

  fail-IsAmong :
      (ts : List (ℕ × Transfer)) (now : ℕ) (t : Transfer) (why : Failure) (s : Session f)
      → Distinct s.transfers
      → ((k : ℕ) → (k == t.rpc_id) ≡ false → has k s.transfers ≡ true → has k ts ≡ true)
      → Holds f (IsAmong ts) (Finishing.fail f now t why s)
  unfolding Finishing.fail Finishing.settle Finishing.forget
  fail-IsAmong ts now t why s d a =
      pump_grants-Holds f (IsAmong ts)
        (λ v k c b e p n h. p n (sym (has-assign_there n k c b v.0 e) ∙ h)) (λ v q p. p) now _
        (record {
          holds = λ k h.
              a k (ground (arith, has-erase k t.rpc_id s.transfers d))
                (ground (arith, has-erase k t.rpc_id s.transfers d));
        })

module _ (assets : ℕ → List ℕ) (f : Floats) where
  fail_found-IsAmong :
      (id : ℕ) (ts : List (ℕ × Transfer)) (old : Transfer) (now : ℕ) (why : Failure)
      (o : Option Transfer) (s : Session f)
      → lookup id s.transfers ≡ o
      → Good assets f s
      → Holds f (IsAmong ((id, old) ∷ ts)) s
      → Holds f (IsAmong ts) (Finishing.fail_found f now why o s)
  unfolding Finishing.fail_found
  fail_found-IsAmong id ts old now why none s e g h = record {
    holds = λ k there.
        ground (arith, h.holds k there, has_absent k id s.transfers (has_missed id s.transfers e));
  }
  fail_found-IsAmong id ts old now why (some t) s e g h =
      let key = (take_found assets f id t s e g).0 in
      fail-IsAmong f ts now t why s g.holds.apart (λ k n there.
        let other : (k == id) ≡ false = subst (λ m. (k == m) ≡ false) key n in
        ground (arith, h.holds k there))

  fail_found-IsKnown :
      (id k now : ℕ) (why : Failure) (o : Option Transfer) (s : Session f)
      → lookup k s.transfers ≡ o
      → Good assets f s
      → Holds f (IsKnown id) s
      → Holds f (IsKnown id) (Finishing.fail_found f now why o s)
  unfolding Finishing.fail_found
  fail_found-IsKnown id k now why none s e g h = h
  fail_found-IsKnown id k now why (some t) s e g h =
      fail-IsKnown f id now t why s g.holds.apart (take_found assets f k t s e g).1.holds.1.answered
        h

  fail_each_lem :
      (id now : ℕ) (why : Failure) (ts : List (ℕ × Transfer)) (s : Session f)
      → Good assets f s
      → Holds f (IsAmong ts) s
      → Holds f (IsKnown id) s
      → let r = Finishing.fail_each f now why ts s in
        Holds f (IsAmong []) r × Holds f (IsKnown id) r
  unfolding Finishing.fail_each
  fail_each_lem id now why [] s g a k = (a, k)
  fail_each_lem id now why ((i, t) ∷ ts) s g a k =
      fail_each_lem id now why ts _ (fail_found-Good assets f now i why _ s refl g)
        (fail_found-IsAmong i ts t now why _ s refl g a)
        (fail_found-IsKnown id i now why _ s refl g k)

  -- When the session of a reachable state ends, or its reader fails, no transfer is left and the
  -- ticker has stopped; and the promise of a transfer that was in flight is settled.
  pub fail_all-settles :
      (u : Utf8) (o : ClientOptions) (max_size limit now id : ℕ) (why : Failure) (s : Session f)
      → Reachable assets f u o max_size limit s
      → has id s.transfers ≡ true
      → let r = Finishing.fail_all f now why s in
        (r.transfers ≡ []) × (r.ticking ≡ false) × (has id r.answers ≡ true)
  unfolding Finishing.fail_all
  fail_all-settles u o max_size limit now id why s reach there =
      let g = Reachable-Good assets f u o max_size limit s reach in
      let (empty, known) =
        fail_each_lem id now why s.transfers s g (record { holds = λ k h. h })
          (record { holds = ground arith }) in
      let none_left = no_keys _ empty.holds in
      let ended : Session f = Finishing.fail_each f now why s.transfers s in
      (
        none_left,
        refl,
        subst (λ ts. (has id ts || has id ended.answers) ≡ true) none_left known.holds,
      )
