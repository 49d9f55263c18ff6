-- ===== src/Shuttle.antt =====
-- shuttle.c: the bytes of an established connection, in both directions.
mod Defs
mod Relay
mod Loop
pub use Defs.{State, Ready, Poll, poll_failed, polled, Outcome, running, returned}
unfoldable pub use Defs.{
  shuttle, forward, backward, turn, shuttle_on, shuttle_data_back_and_forth,
  shuttle_null_connection,
}
pub use Relay.*
pub use Loop.*
