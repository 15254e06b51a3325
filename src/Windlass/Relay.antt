-- ===== src/Windlass/Relay.antt =====
-- The transparent relay of windlass-bridge. Each tokio task is cut at the points where it waits: an
-- event is what one task does between two of them, and a history is any order of events in which
-- each was possible. An unbounded channel is the list of what was sent and not received yet.
pub mod Host
pub mod Exporter
pub mod Link
mod Tests
