-- ===== src/Json.antt =====
-- build_json.c: the state of the program as JSON, in a buffer that grows.
mod Buffer
mod Writers
mod Tree
mod State
mod Document
mod Pieces
mod Items
mod Correct
pub use Buffer.{Buf}
unfoldable pub use Buffer.{doubled, add_to_buf, add_each}
pub use Tree.{Value, str, num, obj, Fields, end, field}
unfoldable pub use Tree.{value_onto}
pub use State.{Build}
unfoldable pub use State.{add_state, build_json}
unfoldable pub use Document.{state_value}
pub use Correct.*
