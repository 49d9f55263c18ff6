-- ===== src/LogFile.antt =====
-- log_file.c: the list of log files and their rotation.
mod Defs
mod Names
mod Registry
mod Rotation
mod Write
pub use Defs.{LogFile, Files}
unfoldable pub use Defs.{new_log_file, find_or_create_log_file, log_file_rotate}
pub use Registry.{find_or_create_log_file-IsRegistry}
unfoldable pub use Registry.{IsRegistry}
pub use Rotation.{IsRotated, log_file_rotate-IsRotated}
pub use Write.{total, opened, on_descriptor, write_all-in_order}
unfoldable pub use Write.{write_all}
unfoldable pub use Defs.{same_name}
