-- ===== src/Io.antt =====
-- safe_blocking_readwrite.c. A descriptor that is read is the list of what its next `read` calls
-- meet: a chunk of bytes that has arrived, or a failure with its errno (EINTR is one); past the list the
-- peer has closed. A descriptor that is written is the list of what the next `write` calls do;
-- past it each call takes all it is given. `byte_dump` only logs.
mod Read
mod Write
mod Delivery
mod Sending
pub use Read.{Event, chunk, failed, Rc, count, error, eq_count, eintr, Reply}
pub use Write.{Slot, accepts, broken, Sent}
pub use Delivery.*
pub use Sending.*
unfoldable pub use Read.{read, sb_read, sb_read_len, put_back, read_more}
unfoldable pub use Write.{write, sb_write_len, write_more}
