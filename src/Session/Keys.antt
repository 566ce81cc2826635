-- ===== src/Session/Keys.antt =====
-- client/src/transport.ts: granting neither adds a transfer nor takes one away, and settles none.
use http.Common.{
  ℕ, ◌≡◌, refl, sym, ◌∙◌, subst, inl, inr, ◌==◌, Bool, true, false, Option, none, some, List, [],
  ◌∷◌, arith, lookup, assign, has, has-assign, has-lookup, Bool-cases,
}
use http.Scheduler.{GrantDecision, Rpcs}
use http.Session.State.{Floats, Session, Transfer}
use http.Session.Sending
use http.Session.Sound.{View, view}
use http.Session.Views.{Holds, send-Holds, note_budget-Holds}

pub has_found {ℓ} :
    {A : Type ℓ} (id : ℕ) (a : A) (m : List (ℕ × A)) → lookup id m ≡ some a → has id m ≡ true
has_found id a m e = elim (has-lookup id m) [
  | inl h ↦ let clash : none ≡ some a = sym h.0 ∙ e in cc clash
  | inr h ↦ h.2
]

pub has_missed {ℓ} :
    {A : Type ℓ} (id : ℕ) (m : List (ℕ × A)) → lookup id m ≡ none → has id m ≡ false
has_missed id m e = elim (has-lookup id m) [
  | inl h ↦ h.1
  | inr h ↦ let clash : none ≡ some h.0 = sym e ∙ h.1 in cc clash
]

-- A write to an entry that is there leaves the keys alone.
pub has-assign_there {ℓ} :
    {A : Type ℓ} (k id : ℕ) (a b : A) (m : List (ℕ × A))
    → lookup id m ≡ some a
    → has k (assign id b m) ≡ has k m
has-assign_there k id a b m e =
    let there = has_found id a m e in
    elim (Bool-cases (k == id)) [
      | inl h ↦
          let same : id ≡ k = ground arith in
          let found : has k m ≡ true = subst (λ n. has n m ≡ true) same there in
          ground (arith, has-assign k id b m)
      | inr h ↦ ground (arith, has-assign k id b m)
    ]

module _ {κ} (f : Floats) (P : View → Type κ)
    (writes : (v : View) (id : ℕ) (t u : Transfer)
      → lookup id v.0 ≡ some t
      → P v
      → P (assign id u v.0, v.1, v.2, v.3))
    (schedules : (v : View) (q : Rpcs) → P v → P (v.0, v.1, v.2, q)) where
  raise-Holds :
      (now : ℕ) (g : GrantDecision) (o : Option Transfer) (s : Session f)
      → lookup g.rpc_id s.transfers ≡ o
      → Holds f P s
      → Holds f P (Sending.raise f now g o s)
  unfolding Sending.raise
  raise-Holds now g none s e h = h
  raise-Holds now g (some t) s e h = record { holds = writes (view f s) g.rpc_id t _ e h.holds }

  send_grants-Holds :
      (now : ℕ) (at_floor : Bool) (gs : List GrantDecision) (s : Session f)
      → Holds f P s
      → Holds f P (Sending.send_grants f now at_floor s gs)
  unfolding Sending.send_grants Sending.send_grant
  send_grants-Holds now at_floor [] s h = h
  send_grants-Holds now at_floor (g ∷ gs) s h =
      send_grants-Holds now at_floor gs _
        (send-Holds f P _ _ (raise-Holds now g _ _ refl (record { holds = h.holds })))

  -- What a write to a transfer of the map and a new schedule keep, granting keeps.
  pub pump_grants-Holds :
      (now : ℕ) (s : Session f) → Holds f P s → Holds f P (Sending.pump_grants f now s)
  unfolding Sending.pump_grants Sending.sync_queue_limit
  pump_grants-Holds now s h =
      note_budget-Holds f P _
        (send_grants-Holds now _ _ _ (record { holds = schedules (view f s) _ h.holds }))
