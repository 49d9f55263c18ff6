-- ===== src/Service.antt =====
-- service.c and service.h, and the specifications of services in service_socks.c,
-- service_port_forward.c and service_http.c.
mod Defs
mod Parse
mod Specs
pub use Defs.*
unfoldable pub use Parse.{
  in_front, set_parts, set_part, kind_part, parse_spec, parse_service_socks_spec,
  parse_service_port_forward_spec, parse_service_http_spec,
}
pub use Parse.{tokens}
pub use Specs.{specified, last_three, parse_service_port_forward_spec-parts}
