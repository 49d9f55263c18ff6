-- ===== src/Connection.antt =====
-- client_connection.h and client_connection.c. The fields with a mutex are written by the thread of
-- the connection alone, and the model follows that thread; `prev` and `next` are the list that
-- holds the connection.
mod Defs
pub use Defs.{
  ClientConnection, ccstatus_okay, ccstatus_error, ccstatus_err_internal, ccstatus_err_network,
  new_client_connection,
}
unfoldable pub use Defs.{set_client_connection_status}
