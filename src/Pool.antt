-- ===== src/Pool.antt =====
-- client_connection.c and server.c: the list of the connections of a proxy, its nodes linked in both
-- directions in memory, and the clean-up that frees them.
mod Memory
mod Defs
mod Shape
mod Free
mod Cleanup
mod Insert
mod Schedule
mod Safety
pub use Memory.{Cell, cell, Cells, Store, Run, ok, write}
pub use Defs.{loitered}
unfoldable pub use Defs.{
  insert_client_connection, remove_client_connection, close_and_free, free_client_connection,
  cleanup_loop, cleanup_connections,
}
pub use Shape.{Nodes, first, has, Distinct, Linked}
pub use Cleanup.{all_fds, Cleaned, cleanup_connections-Cleaned}
unfoldable pub use Cleanup.{kept, dropped}
pub use Schedule.{Op, accepted, worked, cleaned, IsEnabled, IsSchedule}
unfoldable pub use Schedule.{run_op, run_ops, edit, abstract_op, abstract_ops, alive, threads_after}
pub use Safety.{Represents, AllAlive, run_ops-Represents}
