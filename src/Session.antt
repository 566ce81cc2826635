-- ===== src/Session.antt =====
-- client/src/transport.ts, class Http4Client: one session, as a state and the events that change it.
pub mod State
pub mod Timing
pub mod Sending
pub mod Finishing
pub mod Losses
pub mod Noting
pub mod Handling
pub mod Recovery
pub mod Opening
pub mod Events
pub mod Sound
pub mod Views
pub mod Keeping
pub mod Concluding
pub mod Settling
pub mod Noticing
pub mod Advancing
pub mod Ticking
pub mod Responding
pub mod Reaching
pub mod Pumping
pub mod Outcomes
pub mod Keys
pub mod Ending
pub mod Stalling
