-- ===== src/Server.antt =====
-- server.c: the main loop, turn by turn.
mod Poll
mod Accept
mod Loop
mod Requests
mod Events
mod Errors
pub use Poll.{Piped, Revents, watched, get_elem?}
unfoldable pub use Poll.{set_pfd, set_each, find_pfd}
pub use Accept.{Turn, going, exits, Launch, Around, State, services}
unfoldable pub use Accept.{
  launch_thread, accept_connection, accept_service, check_pipe, check_pipes, check_msg,
  check_service, check_services, check_proxies,
}
pub use Loop.{is_pending, text_of, state_json}
unfoldable pub use Loop.{
  need_json, answer, answer_each, answer_all, answer_requests, check_tunnels, rotate_each,
  rotate_logs, after_poll, server_turn,
}
pub use Requests.{Listed, Known, server_turn-answers}
pub use Errors.*
