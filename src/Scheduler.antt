-- ===== src/Scheduler.antt =====
-- client/src/scheduler.ts, class SrptScheduler. The Map is an association list in insertion order;
-- a candidate is a key, since its entry is the Map's own object. Budgets are whole numbers.
-- A transfer's `received` does not pass its size: its caller adds what a reassembly counted as new.
-- So the bytes left in a trace are not negative.
pub mod Entries
pub mod History
pub mod Granting
pub mod Candidates
pub mod Strict
pub mod Rounds
use http.Common.{
  ℕ, zero, suc, ◌+◌, ◌-◌, ◌/◌, ◌≤◌, ◌<◌, min, max, Bool, true, false, not, ◌&&◌, ◌||◌, Option, none,
  some, List, [], ◌∷◌, ◌++◌, map, ltb, leb, ◌==◌, if◌then◌else◌, length, any,
}
use http.Priority.{PriorityClass, class_rank}

pub record Entry : Type 0 where
  pub size : ℕ
  pub granted : ℕ
  pub received : ℕ
  pub paused : Bool
  pub seq : ℕ
  pub cls : PriorityClass

pub record GrantDecision : Type 0 where
  pub rpc_id : ℕ
  pub max_offset : ℕ
  pub priority : ℕ

pub record GrantTrace : Type 0 where
  pub decision : GrantDecision
  pub remaining : ℕ
  pub others : List ℕ

abbrev pub Rpcs : Type 0
Rpcs = List (ℕ × Entry)

pub record Scheduler : Type 0 where
  pub rpcs : Rpcs
  pub next_seq : ℕ
  pub min_increment : ℕ
  pub trace : Option (List GrantTrace)
  pub budget : ℕ
  pub limited : Bool

abbrev pub min_increment_budget_share : ℕ
min_increment_budget_share = 4

-- Map.get, Map.set, Map.delete, and a write to a field of the entry that `get` yields.
unfoldable pub find : ℕ → Rpcs → Option Entry
find id [] = none
find id ((k, e) ∷ rest) = if k == id then some e else find id rest

unfoldable pub put : ℕ → Entry → Rpcs → Rpcs
put id e [] = (id, e) ∷ []
put id e ((k, f) ∷ rest) = if k == id then (k, e) ∷ rest else (k, f) ∷ put id e rest

unfoldable pub delete : ℕ → Rpcs → Rpcs
delete id [] = []
delete id ((k, e) ∷ rest) = if k == id then rest else (k, e) ∷ delete id rest

unfoldable pub modify : ℕ → (Entry → Entry) → Rpcs → Rpcs
modify id f [] = []
modify id f ((k, e) ∷ rest) = if k == id then (k, f e) ∷ rest else (k, e) ∷ modify id f rest

unfoldable pub init : ℕ → ℕ → Option (List GrantTrace) → Scheduler
init budget min_increment trace = record {
  rpcs = [];
  next_seq = 0;
  min_increment = min_increment;
  trace = trace;
  budget = budget;
  limited = false;
}

unfoldable pub set_budget : Scheduler → ℕ → Scheduler
set_budget s budget = record s { budget = budget }

unfoldable pub add : Scheduler → ℕ → ℕ → ℕ → ℕ → PriorityClass → Scheduler
add s rpc_id size granted received cls =
    let e : Entry = record {
      size = size;
      granted = min granted size;
      received = received;
      paused = false;
      seq = s.next_seq;
      cls = cls;
    } in
    record s { rpcs = put rpc_id e s.rpcs; next_seq = s.next_seq + 1 }

unfoldable pub remove : Scheduler → ℕ → Scheduler
remove s rpc_id = record s { rpcs = delete rpc_id s.rpcs }

unfoldable pub on_data : Scheduler → ℕ → ℕ → Scheduler
on_data s rpc_id bytes = record s {
  rpcs = modify rpc_id (λ e. record e { received = e.received + bytes }) s.rpcs;
}

unfoldable pub set_paused : Scheduler → ℕ → Bool → Scheduler
set_paused s rpc_id paused = record s {
  rpcs = modify rpc_id (λ e. record e { paused = paused }) s.rpcs;
}

unfoldable pub granted : Scheduler → ℕ → Option ℕ
granted s rpc_id = elim (find rpc_id s.rpcs) [ none ↦ none | some e ↦ some e.granted ]

-- `Math.max(0, e.granted - e.received)`, summed.
unfoldable pub outstanding : Rpcs → ℕ
outstanding [] = 0
outstanding ((k, e) ∷ rest) = (e.granted - e.received) + outstanding rest

-- The filter and the sort of the candidates; the order is class, bytes left, arrival.
abbrev pub wants : Entry → Bool
wants e = ltb e.granted e.size && not e.paused

unfoldable pub precedes : Entry → Entry → Bool
precedes a b =
    if class_rank a.cls == class_rank b.cls
    then (if a.size + b.received == b.size + a.received
        then leb a.seq b.seq
        else ltb (a.size + b.received) (b.size + a.received))
    else ltb (class_rank a.cls) (class_rank b.cls)

unfoldable pub insert_sorted : ℕ × Entry → Rpcs → Rpcs
insert_sorted c [] = c ∷ []
insert_sorted c (d ∷ rest) = if precedes c.1 d.1 then c ∷ d ∷ rest else d ∷ insert_sorted c rest

unfoldable pub sort_candidates : Rpcs → Rpcs
sort_candidates [] = []
sort_candidates (c ∷ rest) = insert_sorted c (sort_candidates rest)

unfoldable pub filter_wants : Rpcs → Rpcs
filter_wants [] = []
filter_wants (c ∷ rest) = if wants c.1 then c ∷ filter_wants rest else filter_wants rest

abbrev pub keys : Rpcs → List ℕ
keys = map (λ c. c.0)

unfoldable pub candidates : Rpcs → List ℕ
candidates rpcs = keys (sort_candidates (filter_wants rpcs))

-- `o.granted < o.size` for a candidate, and the bytes left of the others that could take more.
unfoldable pub unfinished : Rpcs → ℕ → Bool
unfinished rpcs id = elim (find id rpcs) [ none ↦ false | some e ↦ ltb e.granted e.size ]

unfoldable pub others : Rpcs → ℕ → List ℕ → List ℕ
others rpcs id [] = []
others rpcs id (k ∷ ks) =
    let rest = others rpcs id ks in
    elim (find k rpcs) [
      | none ↦ rest
      | some o ↦
          if not (k == id) && ltb o.granted o.size then (o.size - o.received) ∷ rest else rest
    ]

-- What the loop of `grants` works on.
pub record Round : Type 0 where
  pub rpcs : Rpcs
  pub available : ℕ
  pub out : List GrantDecision
  pub limited : Bool
  pub trace : Option (List GrantTrace)

abbrev pub log : Option (List GrantTrace) → GrantTrace → Option (List GrantTrace)
log none t = none
log (some l) t = some (l ++ (t ∷ []))

-- One GRANT to the entry `e` of `id`.
unfoldable pub give : List ℕ → ℕ → Entry → ℕ → ℕ → Round → Round
give all id e rank target r =
    let d : GrantDecision = record { rpc_id = id; max_offset = target; priority = min rank 7 } in
    record {
      rpcs = modify id (λ o. record o { granted = target }) r.rpcs;
      available = r.available - (target - e.granted);
      out = r.out ++ (d ∷ []);
      limited = r.limited;
      trace =
          log r.trace (record {
            decision = d;
            remaining = e.size - e.received;
            others = others r.rpcs id all;
          });
    }

-- `inc < minIncrement && target < e.size && !stalled`.
unfoldable pub too_small : ℕ → Bool → Entry → ℕ → Bool
too_small min_inc stalled e target =
    ltb (target - e.granted) min_inc && ltb target e.size && not stalled

abbrev pub is_empty {ℓ} : {A : Type ℓ} → List A → Bool
is_empty [] = true
is_empty (x ∷ xs) = false

-- The loop over the candidates from `rank` on. `idle` is `outstanding === 0`.
unfoldable pub grant_loop : List ℕ → ℕ → Bool → ℕ → List ℕ → Round → Round
grant_loop all min_inc idle rank [] r = r
grant_loop all min_inc idle rank (id ∷ ids) r = elim (find id r.rpcs) [
  | none ↦ grant_loop all min_inc idle (rank + 1) ids r
  | some e ↦
      let target = min e.size (e.granted + r.available) in
      let next = grant_loop all min_inc idle (rank + 1) ids (give all id e rank target r) in
      if r.available == 0
      then r
      else (if too_small min_inc (idle && is_empty r.out) e target
          then record r { limited = true }
          else next)
]

unfoldable pub min_grant : Scheduler → ℕ
min_grant s = min s.min_increment (max 1 (s.budget / min_increment_budget_share))

-- `grants`: the decisions, and the scheduler behind them.
unfoldable pub grants : Scheduler → ℕ → List GrantDecision × Scheduler
grants s reserved =
    let in_flight = outstanding s.rpcs in
    let min_inc = min_grant s in
    let ids = candidates s.rpcs in
    let limited = not (is_empty ids) && ltb s.budget (min_inc + reserved + in_flight) in
    let r = grant_loop ids min_inc (in_flight == 0) 0 ids (record {
      rpcs = s.rpcs;
      available = s.budget - (reserved + in_flight);
      out = [];
      limited = limited;
      trace = s.trace;
    }) in
    let late = r.available == 0 && any (unfinished r.rpcs) ids in
    if leb s.budget (reserved + in_flight)
    then ([], record s { limited = limited })
    else (r.out, record s { rpcs = r.rpcs; limited = r.limited || late; trace = r.trace })
