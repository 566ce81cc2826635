-- ===== src/Lib.antt =====
-- HTTP4's browser client (client/src): a model of its own logic and the theorems that make it
-- correct.
--
-- A page's requests travel over one WebTransport session as datagrams. The client asks for an
-- asset (REQ), the server sends DATA, and the client decides, as receiver, which transfer gets
-- bandwidth (GRANT) and what to ask for again (RESEND). The parts, and the modules that model
-- them:
-- - client/src/wire.ts: Wire. Types has the constants and packets; Bytes the DataView reads
--   and writes; Checks the validation functions (checkMeta, checkDataBounds, validMetaValue and
--   the rest); Decode and Encode the two functions, with one helper for each case of their
--   switch. MetaRules, RoundTrip and Validity hold the proofs.
-- - client/src/reassembly.ts, class Reassembly: Reassembly, with its loops over the range list
--   in Reassembly/Ranges; the proofs in Inserting, Insertion, Adding (one add), Counting,
--   Assembly, Delivery (a whole transfer), Gaps (missing, contiguous, frontier).
-- - client/src/reassembly.ts, class RepairTracker: RepairTracker; the proofs in Sweeping (the
--   two sweeps of claim), Waiting (the list of live RESENDs), Claiming, Suspects (the gaps that
--   detect keeps) and Storms (any sequence of calls).
-- - client/src/reassembly.ts, class SeqTracker and the function ranges: SeqTracker; the proofs
--   in Keeping (what is in which map), Tracking (arrive), Ranging, Claims (detect), Looping and
--   Repeating (repeats). A clock reading is a natural number, and a comparison of an age is
--   written as a sum, so it holds for any order of the readings.
-- - client/src/priority.ts: Priority, the scheduling class of a request; the proofs in
--   Priority/Prefixes.
-- - client/src/scheduler.ts, class SrptScheduler: Scheduler; the proofs in Entries, Rounds,
--   Strict, Candidates, Granting (one call of grants) and History (any sequence of calls).
-- - client/src/swproto.ts: SwProto, which requests the service worker forwards, how long they
--   wait, and the reply; the proofs in SwProto/Forwarding.
-- - client/src/transport.ts, class Http4Client: Session. State has the constants, the options,
--   a Transfer and the fields of the client; Timing the timeouts and windows; Sending send,
--   sendHello and pumpGrants; Finishing maybeStart, flushStream, finish, drop and failAll;
--   Losses detectLoss and detectSeqLoss; Noting and Handling the datagram handler and readLoop;
--   Recovery tick and recover; Opening the constructor and Events the calls of users and the
--   events of the browser. Stream is the body stream of a transfer, and repaired. The proofs:
--   Session/Sound is the invariant, Views, Keys, Keeping, Concluding, Settling, Noticing,
--   Advancing, Responding and Ticking keep it, Reaching has the sessions that events lead to,
--   Pumping, Outcomes, Ending and Stalling what follows for the client's users; Stream/Prefix is
--   about one stream.
-- - client/src/sw.ts, serve and its log: Worker; the proofs in Worker/Waits.
-- - client/src/index.ts, tuningOptions, resolveWTUrl and openSession: Connect; the proofs in
--   Connect/Urls.
-- - client/src/fetcher.ts, class Http4Fetcher: Fetcher, with httpStatusFor of
--   client/src/transport.ts; fetch itself is in Fetcher/Fetching, prefixMapper in
--   Fetcher/Mapping with its proofs; the proofs of the log in Fetcher/Reports. A promise is what
--   it settles to, an abort signal is whether it has been aborted.
-- - client/src/budget.ts, class BudgetController: Budget, over a record of the floating-point
--   steps; the proofs in Budget/Bounds.
-- - Common has the numbers, Boolean tests and lists that the parts share; Samples runs the
--   model at concrete inputs.
--
-- Numbers are natural numbers: the code's numbers are byte counts, offsets and times that it
-- keeps whole and not negative, so the tests for negative and fractional numbers in wire.ts and
-- reassembly.ts have no counterpart. Bytes are numbers in a list, and a theorem about datagrams
-- says that they are below 256 where it needs that. Strings are lists of UTF-16 code units. A
-- thrown error is a value of Result or none. A Map is an association list in insertion order. A
-- class with state is a record, and a method that changes it returns the new record. The loops
-- are structural recursion, so there is no fuel, but for the loop over META's fields, which
-- counts down the field number that the code counts up to, and the decimal digits of a content-
-- length, whose fuel is the number itself and more (Fetcher/Reports: more fuel changes nothing).
--
-- A session (Session/State) is a state, and an event changes it: a request, a datagram, a tick,
-- a reader that takes bytes or cancels, the session's end. An event reads the clock once, in
-- milliseconds, where the code reads it again at each step. A Transfer is an object that the
-- code shares; here a handler works on its value and writes it back. A loop over a copy of the
-- map looks each transfer up again, since none of its turns takes another transfer out. Whether
-- the reader of a stream is behind is an argument of the event. Settled promises, ended streams
-- and the calls that throw are kept in logs. A packet is sent as a value: encode, which send
-- calls, is taken to accept it, since a REQ was encoded before and the other packets are built
-- from numbers in range. The floating-point steps of budget.ts are a record of operations
-- (Budget.Rates), and those of transport.ts another (Session.State.Floats); what is proved of
-- the loss factor is under the hypothesis that it does not raise a number. TextEncoder,
-- TextDecoder and isWellFormed are a record of functions (Wire/Checks), with their documented
-- behaviour, the dropped byte order mark included, as laws. The random source of newRpcId is not
-- modelled: a request's ID comes with its event, and the theorems on a session take it to be
-- new. They also take DATA to bring pieces of the asset that its request named, which is what a
-- server does; both are in the step relation of Session/Reaching.
--
-- Not modelled: the promise of connect, the settings echoed in the counters and the texts of
-- errors (transport.ts); responseFor (fetcher.ts); the message channels of the worker (a reply
-- to hello is an operation on what the worker remembers) and its listeners for install, activate
-- and message (sw.ts); the parsing of the inline config, the race with the connect timeout and
-- the handle (index.ts); page.ts, main.ts and auto.ts, which are DOM, events and accessors
-- around the parts above; the Go server; the tests and benchmarks.
pub mod Common
pub mod Wire
pub mod Reassembly
pub mod Priority
pub mod Scheduler
pub mod Budget
pub mod Fetcher
pub mod RepairTracker
pub mod Session
pub mod Stream
pub mod SwProto
pub mod Worker
pub mod Connect
pub mod SeqTracker
mod Samples
