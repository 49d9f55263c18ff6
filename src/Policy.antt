-- ===== src/Policy.antt =====
-- ssh_policy.c: which SSH tunnels are to run, and the start of those that do not.
mod Defs
mod Marks
mod Starts
pub use Defs.{Wait, still_running, exited, wait_failed, Env, is_running, demand, use_of}
unfoldable pub use Defs.{
  reset, bump_mark, bump_use, mark_each, mark_connection, mark_connections, check_ssh_tunnel,
  check_ssh_tunnels,
}
pub use Marks.*
pub use Starts.*
