-- ===== src/Samples/StreamRuns.antt =====
-- client/src/transport.ts: a stream of five bytes, all of which have arrived.
use http.Common.{ℕ, ◌≡◌, ◌↔◌, ◌≤◌, ◌<◌, min, refl, true, false, List, [], ◌∷◌, some, arith}
use http.Reassembly.Ranges.{covers}
use http.Reassembly.{Reassembly, complete}
use http.Reassembly.Assembly.{Agrees}
use http.SeqTracker.{SeqHint}
use http.Stream.{StreamState, flush_stream, repaired}
use http.Stream.Prefix.{IsPrefix, flush_stream-IsPrefix, flush_stream-whole, repaired_iff}

abbrev asset : List ℕ
asset = 10 ∷ 11 ∷ 12 ∷ 13 ∷ 14 ∷ []

abbrev all_in : Reassembly
all_in = record {
  size = 5;
  bytes = asset;
  ranges = record { start = 0; stop = 5 } ∷ [];
  received = 5;
}

all_in-Agrees : Agrees asset all_in
all_in-Agrees = record {
  valid = record { apart = omega arith; inside = omega arith; counted = refl; buffer = refl };
  size = refl;
  same = λ x e. refl;
}

abbrev two_sent : StreamState
two_sent = record { sent = 10 ∷ 11 ∷ []; emitted = 2; paused = true; closed = false }

two_sent-IsPrefix : IsPrefix asset two_sent
two_sent-IsPrefix = record { same = refl; inside = omega arith }

flush_stream-IsPrefix_example : IsPrefix asset (flush_stream two_sent all_in false)
flush_stream-IsPrefix_example =
    flush_stream-IsPrefix asset all_in two_sent false all_in-Agrees two_sent-IsPrefix

all_complete : complete all_in ≡ true
unfolding complete
all_complete = refl

flush_stream-whole_example : (flush_stream two_sent all_in true).sent ≡ asset
flush_stream-whole_example =
    flush_stream-whole asset all_in two_sent true all_in-Agrees two_sent-IsPrefix all_complete refl

abbrev hint : SeqHint
hint = record { rpc_id = 1; start = 3; stop = 9 }

repaired_iff_example :
    (repaired (some (some all_in)) hint ≡ true)
    ↔ ((x : ℕ) → 3 ≤ x → x < min 9 5 → covers all_in.ranges x ≡ true)
repaired_iff_example = repaired_iff all_in hint all_in-Agrees.valid
