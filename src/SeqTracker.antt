-- ===== src/SeqTracker.antt =====
-- client/src/reassembly.ts, class SeqTracker and the function `ranges`: which session sequence
-- numbers are missing, asked for again (claimed), or no longer asked for (settled). `next` is
-- `highest + 1`; times are natural numbers; `none` for a window stands for Infinity.
pub mod Keeping
pub mod Tracking
pub mod Ranging
pub mod Claims
pub mod Looping
pub mod Repeating
use http.Common.{
  ℕ, zero, suc, ◌+◌, ◌-◌, Bool, true, false, ◌&&◌, ◌||◌, Option, none, some, List, [], ◌∷◌, ltb,
  leb, ◌==◌, if◌then◌else◌, length, has, lookup, assign, erase,
}
use http.Reassembly.Ranges.{Range}

pub data SeqArrival : Type 0 where
  fresh reordered spurious duplicate : SeqArrival

pub record SeqHint : Type 0 where
  pub rpc_id : ℕ
  pub start : ℕ
  pub stop : ℕ

pub record Missing : Type 0 where
  pub since : ℕ
  pub hint : Option SeqHint

pub record Claim : Type 0 where
  pub at : ℕ
  pub tries : ℕ
  pub hint : Option SeqHint

pub record SeqTracker : Type 0 where
  pub next : ℕ
  pub last : Option SeqHint
  pub missing : List (ℕ × Missing)
  pub claimed : List (ℕ × Claim)
  pub settled : List (ℕ × ℕ)

abbrev pub max_settled : ℕ
max_settled = 8192

abbrev pub max_gap : ℕ
max_gap = 4096

abbrev pub claim_ttl_ms : ℕ
claim_ttl_ms = 30_000

unfoldable pub init : SeqTracker
init = record { next = 0; last = none; missing = []; claimed = []; settled = [] }

unfoldable pub outstanding : SeqTracker → ℕ
outstanding t = length t.missing

-- The hint for the numbers of a gap: the bytes between the packets on its two sides.
unfoldable pub hint_between : Option SeqHint → Option SeqHint → ℕ → Option SeqHint
hint_between none where_now gap = none
hint_between (some prev) none gap = none
hint_between (some prev) (some now) gap =
    if ltb 0 gap && (prev.rpc_id == now.rpc_id && ltb prev.stop now.start)
    then some (record { rpc_id = now.rpc_id; start = prev.stop; stop = now.start })
    else none

-- `for (let s = from; s < from + count; s++) missing.set(s, m)`.
unfoldable pub note_missing : ℕ → ℕ → Missing → List (ℕ × Missing) → List (ℕ × Missing)
note_missing from zero m all = all
note_missing from (suc count) m all = note_missing (suc from) count m (assign from m all)

unfoldable pub arrive : SeqTracker → ℕ → ℕ → Option SeqHint → SeqArrival × SeqTracker
arrive t seq now where_now =
    let gap = seq - t.next in
    let noted =
      note_missing t.next gap (record { since = now; hint = hint_between t.last where_now gap })
        t.missing in
    if leb t.next seq
    then (
      fresh,
      record t {
        next = seq + 1;
        last = where_now;
        missing = if leb gap max_gap then noted else t.missing;
      },
    )
    else (if has seq t.missing
        then (reordered, record t { missing = erase seq t.missing })
        else (if has seq t.claimed
            then (spurious, record t { claimed = erase seq t.claimed })
            else (if has seq t.settled
                then (spurious, record t { settled = erase seq t.settled })
                else (duplicate, t))))

-- `(highest - s >= allowance && age >= windowMs) || age >= tailWindowMs`.
unfoldable pub is_lost : ℕ → ℕ → ℕ → ℕ → Option ℕ → ℕ → Missing → Bool
is_lost next now allowance window none s m = ltb (s + allowance) next && leb (m.since + window) now
is_lost next now allowance window (some tail) s m =
    (ltb (s + allowance) next && leb (m.since + window) now) || leb (m.since + tail) now

unfoldable pub keys_where {ℓ} : {A : Type ℓ} → (ℕ → A → Bool) → List (ℕ × A) → List ℕ
keys_where p [] = []
keys_where p ((k, a) ∷ rest) = if p k a then k ∷ keys_where p rest else keys_where p rest

-- A lost number moves from `missing` to `claimed`. It is there: the numbers come from `missing`.
unfoldable pub claim : ℕ → ℕ → SeqTracker → SeqTracker
claim now s t = elim (lookup s t.missing) [
  | none ↦ t
  | some m ↦ record t {
    missing = erase s t.missing;
    claimed = assign s (record { at = now; tries = 1; hint = m.hint }) t.claimed;
  }
]

unfoldable pub claim_all : ℕ → List ℕ → SeqTracker → SeqTracker
claim_all now [] t = t
claim_all now (s ∷ lost) t = claim_all now lost (claim now s t)

-- `ranges`: sorted, then merged into ranges of at most `max_range` numbers.
unfoldable pub insert_number : ℕ → List ℕ → List ℕ
insert_number n [] = n ∷ []
insert_number n (m ∷ ms) = if leb n m then n ∷ m ∷ ms else m ∷ insert_number n ms

unfoldable pub sort_numbers : List ℕ → List ℕ
sort_numbers [] = []
sort_numbers (n ∷ ns) = insert_number n (sort_numbers ns)

-- The loop of `ranges`, with the last range of `out` apart.
unfoldable pub merge : ℕ → Range → List ℕ → List Range
merge max_range last [] = last ∷ []
merge max_range last (s ∷ rest) =
    let longer = merge max_range (record { start = last.start; stop = s + 1 }) rest in
    let another = merge max_range (record { start = s; stop = s + 1 }) rest in
    if last.stop == s && ltb (last.stop - last.start) max_range then longer else last ∷ another

unfoldable pub merge_all : ℕ → List ℕ → List Range
merge_all max_range [] = []
merge_all max_range (s ∷ rest) = merge max_range (record { start = s; stop = s + 1 }) rest

unfoldable pub ranges : List ℕ → ℕ → List Range
ranges nums max_range = merge_all max_range (sort_numbers nums)

unfoldable pub lost_numbers : SeqTracker → ℕ → ℕ → ℕ → Option ℕ → List ℕ
lost_numbers t now allowance window tail =
    keys_where (is_lost t.next now allowance window tail) t.missing

unfoldable pub detect : SeqTracker → ℕ → ℕ → ℕ → Option ℕ → ℕ → List Range × SeqTracker
detect t now allowance window tail max_range =
    let lost = lost_numbers t now allowance window tail in
    (ranges lost max_range, claim_all now lost t)

-- The first loop of `repeats` over `claimed`: what stays claimed, what is settled, and what is
-- asked for again.
pub record Repeats : Type 0 where
  pub claimed : List (ℕ × Claim)
  pub settled : List (ℕ × ℕ)
  pub due : List ℕ

-- `c.hint && repaired(c.hint)`.
abbrev pub is_repaired : (SeqHint → Bool) → Option SeqHint → Bool
is_repaired repaired none = false
is_repaired repaired (some h) = repaired h

unfoldable pub is_done : ℕ → (SeqHint → Bool) → Claim → Bool
is_done max_tries repaired c = leb max_tries c.tries || is_repaired repaired c.hint

unfoldable pub repeat_loop :
    ℕ → ℕ → ℕ → (SeqHint → Bool) → List (ℕ × Claim) → List (ℕ × ℕ) → Repeats
repeat_loop now delay max_tries repaired [] settled = record {
  claimed = [];
  settled = settled;
  due = [];
}
repeat_loop now delay max_tries repaired ((s, c) ∷ rest) settled =
    let same = repeat_loop now delay max_tries repaired rest settled in
    let done = repeat_loop now delay max_tries repaired rest (assign s now settled) in
    if ltb now (c.at + delay)
    then record same { claimed = (s, c) ∷ same.claimed }
    else (if is_done max_tries repaired c then done else record {
      claimed = (s, record c { at = now; tries = c.tries + 1 }) ∷ same.claimed;
      settled = same.settled;
      due = s ∷ same.due;
    })

-- The second loop: the oldest settled numbers go, until few and young enough are left.
unfoldable pub trim : ℕ → List (ℕ × ℕ) → List (ℕ × ℕ)
trim now [] = []
trim now ((s, at) ∷ rest) =
    if leb (length ((s, at) ∷ rest)) max_settled && leb now (at + claim_ttl_ms)
    then (s, at) ∷ rest
    else trim now rest

unfoldable pub repeats : SeqTracker → ℕ → ℕ → ℕ → (SeqHint → Bool) → ℕ → List Range × SeqTracker
repeats t now delay max_tries repaired max_range =
    let r = repeat_loop now delay max_tries repaired t.claimed t.settled in
    (ranges r.due max_range, record t { claimed = r.claimed; settled = trim now r.settled })
