-- ===== src/Session/Sound.antt =====
-- client/src/transport.ts: what holds of a session whose DATA packets bring pieces of the assets.
use http.Common.{
  ℕ, ◌≡◌, Bool, false, Option, none, some, List, take, length, erase, has, Distinct, All,
}
use http.Scheduler.{Rpcs}
use http.Scheduler.Rounds.{IsCapped}
use http.Reassembly.Assembly.{Agrees}
use http.Stream.{StreamState}
use http.Stream.Prefix.{IsPrefix}
use http.Session.State.{
  Floats, Session, Transfer, Body, Answer, response, streaming, failure, StreamEnd, closes, errors,
}

-- A transfer's parts against its asset.
abbrev pub IsBody : List ℕ → Option Body → Type 0
IsBody asset none = Unit {0}
IsBody asset (some b) = Agrees asset b.asm

abbrev pub IsStream : List ℕ → Option StreamState → Type 0
IsStream asset none = Unit {0}
IsStream asset (some st) = IsPrefix asset st × (st.closed ≡ false)

-- A whole body is the asset, and a stream is answered with the asset's size.
abbrev pub IsAnswer : List ℕ → Answer → Type 0
IsAnswer asset (response bytes fields) = bytes ≡ asset
IsAnswer asset (streaming size fields) = size ≡ length asset
IsAnswer asset (failure why) = Unit {0}

-- A stream that closes has given its reader the asset, one that errors a prefix of it.
abbrev pub IsEnd : List ℕ → StreamEnd → Type 0
IsEnd asset (closes bytes) = bytes ≡ asset
IsEnd asset (errors bytes why) = (n : ℕ) × (bytes ≡ take n asset)

-- What holds of one transfer in flight.
pub record Held (asset : List ℕ) (id : ℕ) (body : Option Body) (stream : Option StreamState)
    (settled : Bool) (answers : List (ℕ × Answer)) (ended : List (ℕ × StreamEnd)) : Type 0 where
  pub body_agrees : IsBody asset body
  pub stream_agrees : IsStream asset stream
  pub answered : has id answers ≡ settled
  pub runs : has id ended ≡ false

module _ (assets : ℕ → List ℕ) where
  abbrev pub HeldAt : ℕ → Transfer → List (ℕ × Answer) → List (ℕ × StreamEnd) → Type 0
  HeldAt id t answers ended = Held (assets id) id t.body t.stream t.settled answers ended

  abbrev pub IsEntry : List (ℕ × Answer) → List (ℕ × StreamEnd) → ℕ × Transfer → Type 0
  IsEntry answers ended p = (p.1.rpc_id ≡ p.0) × HeldAt p.0 p.1 answers ended

  pub record Sound (transfers : List (ℕ × Transfer)) (answers : List (ℕ × Answer))
      (ended : List (ℕ × StreamEnd)) (rpcs : Rpcs) : Type 0 where
    pub entries : All (IsEntry answers ended) transfers
    pub apart : Distinct transfers
    pub answered_once : Distinct answers
    pub ended_once : Distinct ended
    pub are_answers : All (λ a. IsAnswer (assets a.0) a.1) answers
    pub are_ends : All (λ e. IsEnd (assets e.0) e.1) ended
    pub capped : IsCapped rpcs

-- The parts of a session that soundness is about.
abbrev pub View : Type 0
View = List (ℕ × Transfer) × List (ℕ × Answer) × List (ℕ × StreamEnd) × Rpcs

abbrev pub view : (f : Floats) → Session f → View
view f s = (s.transfers, s.answers, s.ended, s.scheduler.rpcs)

abbrev pub IsSound : (ℕ → List ℕ) → View → Type 0
IsSound assets v = Sound assets v.0 v.1 v.2 v.3

-- The session apart from the transfer that a handler holds.
abbrev pub IsSoundBut : (ℕ → List ℕ) → ℕ → View → Type 0
IsSoundBut assets id v = Sound assets (erase id v.0) v.1 v.2 v.3 × Distinct v.0

-- A handler's view: the transfer in its hand, and the session apart from it.
abbrev pub InHand : (ℕ → List ℕ) → Transfer → View → Type 0
InHand assets t v = IsSoundBut assets t.rpc_id v × HeldAt assets t.rpc_id t v.1 v.2

-- A transfer that has left the map, and is not settled yet.
abbrev pub Gone : (ℕ → List ℕ) → Transfer → View → Type 0
Gone assets t v = IsSound assets v × (has t.rpc_id v.0 ≡ false) × HeldAt assets t.rpc_id t v.1 v.2

abbrev pub Each {ℓ κ} : {A : Type ℓ} → (A → Type κ) → Option A → Type κ
Each P none = Unit {κ}
Each P (some a) = P a
