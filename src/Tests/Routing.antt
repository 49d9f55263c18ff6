-- ===== src/Tests/Routing.antt =====
-- The protocol, the rules, hosts and texts at concrete inputs.
use smart_socksproxy.Base.{
  ◌/◌, ◌^◌, ◌-◌, ◌≡◌, refl, ◌↔◌, inl, true, false, Option, none, some, List, [], ◌∷◌, ◌++◌, Bytes,
  codes, length, take, drop, pos, arith, bit_and, htons,
}
use smart_socksproxy.Io.{
  write_more, write, Event, chunk, failed, count, eintr, accepts, broken, stream, Got, sb_read_len,
  sb_read_len-Got, sb_read_len-short, Sends, sb_write_len, sb_write_len-Sends,
}
use smart_socksproxy.Host.{
  HostId, SockaddrIn, inet, host_id_init, host_id_set_name, host_id_set_port, host_id_set_addr_in,
  host_id_set_addr_in6, host_id_set_addr_in_from_byte_array, host_id_set_addr_in6_from_byte_array,
  Net, PortsAgree, PortsAgree-operations,
}
use smart_socksproxy.Tunnel.{ssh_tunnel_direct}
use smart_socksproxy.Rule.{RouteRule, new_route_rule}
use smart_socksproxy.Connection.{ClientConnection, new_client_connection}
use smart_socksproxy.Engine.{
  view, conditions, Applies, conditions_iff, rewrite, Rewritten, rewrite-Rewritten, text_condition,
  network_condition, permute, decide_applicable_rule, Decided, Ends, Passes,
  decide_applicable_rule-Passes, change, end, decide_applicable_rule-Decided,
  decide_applicable_rule-Ends, other_fields, decide_applicable_rule-other_fields, prefix_mask_iff,
}
use smart_socksproxy.Socks.{
  command_bytes, address_field, transmit_command, transmit_unless_error, send, Session,
  socks5_client_send_command, Carries, Understood, socks5_round_trip,
}

-- A network with one name in it.
abbrev dot : Bytes → Option Bytes
dot [] = none
dot (c ∷ s) = some (10 ∷ 0 ∷ 0 ∷ 1 ∷ [])

abbrev one_name : Net
one_name = record {
  pton = dot;
  ntop = λ a. codes "10.0.0.1";
  ntop6 = λ a. codes "::1";
  addresses = λ name. some (codes "10.0.0.1", []);
  stale = 0 ∷ 0 ∷ 0 ∷ 0 ∷ [];
}

abbrev dot_address : SockaddrIn
dot_address = record { sin_port = htons 443; sin_addr = 10 ∷ 1 ∷ 2 ∷ 3 ∷ [] }

abbrev named_host : HostId
named_host = record host_id_init { name = codes "host.example"; port = pos 443 }

abbrev numbered_host : HostId
numbered_host = record { name = codes "host"; addr = inet dot_address; port = pos 443 }

abbrev to_name : ClientConnection
to_name = record (new_client_connection 1 0) {
  dst_host = named_host;
  socks_command = 1;
  socks_address_type = 3;
}

abbrev to_number : ClientConnection
to_number = record (new_client_connection 2 0) {
  dst_host = numbered_host;
  socks_command = 1;
  socks_address_type = 1;
}

-- A descriptor that takes three bytes and is then interrupted.
abbrev client : Session
client = record {
  con = to_name;
  peer = record { input = []; slots = accepts 3 ∷ broken eintr ∷ []; sent = [] };
  failure_type = none;
}

abbrev wire : List Event
wire =
    chunk (5 ∷ 1 ∷ 0 ∷ 3 ∷ 12 ∷ codes "host")
    ∷ failed eintr
    ∷ chunk (codes ".example" ++ 1 ∷ 187 ∷ 7 ∷ [])
    ∷ []

abbrev server : Session
server = record {
  con = new_client_connection 3 0;
  peer = record { input = wire; slots = []; sent = [] };
  failure_type = none;
}

wire-Carries : Carries server.peer.input ((socks5_client_send_command client).1.peer.sent ++ 7 ∷ [])
unfolding socks5_client_send_command transmit_command command_bytes address_field
    transmit_unless_error send sb_write_len write write_more
wire-Carries = record { clean = (omega arith, (refl, (omega arith, tt))); bytes_are = refl }

socks5_round_trip_example :
    ((socks5_client_send_command client).0 ≡ some tt) × Understood client.con server (7 ∷ [])
socks5_round_trip_example =
    socks5_round_trip client server 443 (7 ∷ []) (inl refl) refl (omega arith)
      (inl (refl, omega arith, omega arith)) (refl, tt) refl wire-Carries

-- A rule that moves 10.0.0.0/8 and names no tunnel, and one that takes all that is left.
abbrev moving : RouteRule
moving = record (new_route_rule 1) {
  have_to_ipv4 = true;
  to_ipv4_addr = 0xac10_0000;
  to_ipv4_mask = 0xffff_0000;
}

abbrev direct : RouteRule
direct = record (new_route_rule 2) { tunnel = ssh_tunnel_direct ∷ [] }

abbrev two_rules : List RouteRule
two_rules = moving ∷ direct ∷ []

abbrev default : RouteRule
default = new_route_rule 9

abbrev moved : ClientConnection
moved = permute one_name moving to_number

abbrev routed : ClientConnection
routed = permute one_name direct moved

goes_direct : Ends one_name (pos 443) two_rules to_number direct routed
unfolding conditions text_condition network_condition
goes_direct = record {
  before = moving ∷ [];
  after = [];
  at = moved;
  splits = refl;
  passes = change refl refl end;
  applies = refl;
  final = refl;
  permuted = refl;
}

decide_applicable_rule-Decided_example :
    Decided one_name two_rules default to_number
      (decide_applicable_rule one_name two_rules default to_number)
decide_applicable_rule-Decided_example =
    decide_applicable_rule-Decided one_name two_rules default to_number

decide_applicable_rule-Ends_example :
    decide_applicable_rule one_name two_rules default to_number
    ≡ (true, record routed { route = some direct })
decide_applicable_rule-Ends_example =
    decide_applicable_rule-Ends one_name two_rules default to_number direct routed goes_direct

moving-Passes : Passes one_name (pos 443) (moving ∷ []) to_number moved
unfolding conditions text_condition network_condition
moving-Passes = change refl refl end

decide_applicable_rule-Passes_example :
    decide_applicable_rule one_name (moving ∷ []) default to_number
    ≡ (false, record moved { route = some default })
decide_applicable_rule-Passes_example =
    decide_applicable_rule-Passes one_name (moving ∷ []) default to_number moved moving-Passes

decide_applicable_rule-other_fields_example :
    other_fields (decide_applicable_rule one_name two_rules default to_number).1
    ≡ other_fields to_number
decide_applicable_rule-other_fields_example =
    decide_applicable_rule-other_fields one_name two_rules default to_number

conditions_iff_example :
    (conditions
        (pos 443)
        (view one_name numbered_host)
        (record direct { match_contains = codes "OST" })
      ≡ true)
    ↔ Applies
        (pos 443)
        (view one_name numbered_host)
        (record direct { match_contains = codes "OST" })
conditions_iff_example =
    conditions_iff (pos 443) (view one_name numbered_host)
      (record direct { match_contains = codes "OST" })

rewrite-Rewritten_example :
    Rewritten one_name moving dot_address to_number (rewrite one_name moving to_number)
rewrite-Rewritten_example =
    rewrite-Rewritten one_name moving to_number 443 dot_address refl (omega arith) (omega arith)
      refl refl

prefix_mask_iff_example :
    (bit_and 0x0a01_0203 0xff00_0000 ≡ bit_and 0x0a63_0000 0xff00_0000)
    ↔ (0x0a01_0203 / 2 ^ (32 - 8) ≡ 0x0a63_0000 / 2 ^ (32 - 8))
prefix_mask_iff_example =
    prefix_mask_iff 8 0xff00_0000 0x0a01_0203 0x0a63_0000 refl (omega arith) (omega arith)

sb_read_len-Got_example : Got (sb_read_len 6 [] wire) (take 6 (stream wire)) (drop 6 (stream wire))
sb_read_len-Got_example =
    sb_read_len-Got 6 wire (omega arith, (refl, (omega arith, tt))) (omega arith)

sb_read_len-short_example : (sb_read_len 21 [] wire).rc ≡ count 0
sb_read_len-short_example =
    sb_read_len-short 21 [] wire (omega arith, (refl, (omega arith, tt))) (omega arith)

sb_write_len-Sends_example :
    Sends
      (sb_write_len 0 (codes "hello") [] (accepts 3 ∷ broken eintr ∷ []))
      ([] ++ codes "hello")
      (length (codes "hello"))
sb_write_len-Sends_example =
    sb_write_len-Sends (codes "hello") [] (accepts 3 ∷ broken eintr ∷ []) (refl, tt) (omega arith)

PortsAgree-operations_example :
    PortsAgree (host_id_set_port numbered_host (pos 80))
    × PortsAgree (host_id_set_addr_in numbered_host dot_address)
    × PortsAgree (host_id_set_addr_in6 numbered_host dot_address)
    × PortsAgree (host_id_set_addr_in_from_byte_array numbered_host (8 ∷ 8 ∷ 8 ∷ 8 ∷ []) (pos 80))
    × PortsAgree (host_id_set_addr_in6_from_byte_array numbered_host (8 ∷ 8 ∷ 8 ∷ 8 ∷ []) (pos 80))
    × PortsAgree (host_id_set_name numbered_host (codes "other"))
PortsAgree-operations_example =
    PortsAgree-operations numbered_host 80 (8 ∷ 8 ∷ 8 ∷ 8 ∷ []) (codes "other") dot_address refl
      (omega arith)
