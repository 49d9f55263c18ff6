-- ===== src/Engine.antt =====
-- route_rules_engine.c: which rule a connection takes, and what the rules on the way change.
mod Defs
mod Conditions
mod Choice
mod Rewrite
mod Prefix
pub use Defs.{View, view, is_final, default_direct}
unfoldable pub use Defs.{
  text_condition, network_condition, conditions, rewritten_address, rewrite, resolve, permute, scan,
  decide_applicable_rule,
}
pub use Conditions.*
pub use Choice.*
pub use Prefix.*
pub use Rewrite.*
