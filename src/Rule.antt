-- ===== src/Rule.antt =====
-- route_rule.h and route_rule.c: routing rules and the parser of their text.
mod Defs
mod Netmask
mod Parse
mod Total
pub use Defs.{RouteRule, new_route_rule, max_tunnels}
unfoldable pub use Defs.{insert_route_rule}
pub use Netmask.{prefix_mask}
unfoldable pub use Netmask.{route_rule_grab_netv4}
pub use Parse.{Parsed, rule, refused, undefined, exhausted}
unfoldable pub use Parse.{grab, via_tunnel, commands, vias, parse_route_rule_spec}
pub use Total.*
