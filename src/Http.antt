-- ===== src/Http.antt =====
-- service_http.c: the web server of the status page.
mod Request
mod Respond
mod Safety
mod Serving
mod Answers
pub use Request.{is_allowed, content_type}
unfoldable pub use Request.{get_safe_filename_from_request, safe_from, read_one_line_safely}
pub use Respond.{Exchange, header, File, missing, unreadable, chunks}
unfoldable pub use Respond.{
  errno_behind, errno_behind_reads, send_string, send_all, send_chunks, basic_response,
  return_file_contents, return_connection_state_json, service_http_connection_handler,
}
pub use Safety.*
pub use Answers.*
pub use Serving.*
