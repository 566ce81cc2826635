-- ===== src/Samples/SchedulerRuns.antt =====
-- client/src/scheduler.ts with two transfers of one class and one in the background.
use http.Common.{◌≡◌, ◌≢◌, refl, false, none, List, [], ◌∷◌, arith}
use http.Priority.{normal, background}
use http.Scheduler.{
  Entry, Scheduler, find, modify, outstanding, init, grants, candidates, precedes, sort_candidates,
  filter_wants, insert_sorted, give, too_small, grant_loop, min_grant, unfinished, others,
}
use http.Scheduler.Rounds.{IsCapped}
use http.Scheduler.Granting.{Granted, grants-Granted}
use http.Scheduler.History.{Call, adds, asks, receives, run, run-Granted, grants_restart}

abbrev long_entry : Entry
long_entry = record { size = 100; granted = 0; received = 0; paused = false; seq = 0; cls = normal }

abbrev short_entry : Entry
short_entry = record { size = 30; granted = 0; received = 0; paused = false; seq = 1; cls = normal }

abbrev far_entry : Entry
far_entry = record {
  size = 10;
  granted = 0;
  received = 0;
  paused = false;
  seq = 2;
  cls = background;
}

abbrev three : Scheduler
three = record {
  rpcs = (1, long_entry) ∷ (2, short_entry) ∷ (3, far_entry) ∷ [];
  next_seq = 3;
  min_increment = 8;
  trace = none;
  budget = 64;
  limited = false;
}

-- The short one first, in full; the rest of the budget to the long one; none in the background.
three_decisions :
    (grants three 0).0
    ≡ record { rpc_id = 2; max_offset = 30; priority = 0 }
      ∷ record { rpc_id = 1; max_offset = 34; priority = 1 }
      ∷ []
unfolding grants candidates sort_candidates insert_sorted filter_wants precedes outstanding
    grant_loop give too_small min_grant find modify unfinished others
three_decisions = refl

three-IsCapped : IsCapped three.rpcs
three-IsCapped = omega arith

grants-Granted_example : Granted three 0 (grants three 0)
grants-Granted_example = grants-Granted three 0 three-IsCapped

abbrev calls : List Call
calls = adds 1 100 0 0 normal ∷ adds 2 30 0 0 normal ∷ asks 0 ∷ receives 2 30 ∷ []

run-Granted_example :
    IsCapped (run (init 64 8 none) calls).rpcs
    × Granted (run (init 64 8 none) calls) 4 (grants (run (init 64 8 none) calls) 4)
run-Granted_example = run-Granted 64 8 none calls 4

three_wait : candidates three.rpcs ≢ []
unfolding candidates sort_candidates insert_sorted filter_wants precedes
three_wait = λ e. cc e

three_idle : outstanding three.rpcs ≡ 0
unfolding outstanding
three_idle = refl

grants_restart_example : (grants three 63).0 ≢ []
grants_restart_example = grants_restart three 63 three_idle (omega arith) three_wait
