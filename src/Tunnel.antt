-- ===== src/Tunnel.antt =====
-- ssh_tunnel.h and ssh_tunnel.c: the SSH tunnels that rules name, and the three special ones. A
-- pointer to a tunnel is its `id`, which the pool counter makes unique. The descriptors of the pipes
-- to the child are left out.
use smart_socksproxy.Base.{
  ℕ, Option, none, some, List, [], ◌∷◌, Bytes, codes, if◌then◌else◌, str_eq, ℤ, pos, negsuc,
}

pub record SshTunnel : Type 0 where
  pub id : ℕ
  pub name : Bytes
  pub socks_port : ℤ
  pub command_to_run : Bytes
  pub mark : ℕ
  pub connection_count : ℕ
  pub pid : ℤ
  pub start_time : ℕ
  pub last_update_time : ℕ

-- The fields that `new_ssh_tunnel` leaves unset, `mark` and `connection_count`, are 0 here.
abbrev pub new_ssh_tunnel : ℕ → SshTunnel
new_ssh_tunnel id = record {
  id = id;
  name = [];
  socks_port = pos 0;
  command_to_run = [];
  mark = 0;
  connection_count = 0;
  pid = negsuc 0;
  start_time = 0;
  last_update_time = 0;
}

-- The newest tunnel is the head.
abbrev pub insert_ssh_tunnel : List SshTunnel → SshTunnel → List SshTunnel
insert_ssh_tunnel head ssh = ssh ∷ head

abbrev pub ssh_tunnel_direct : ℕ
ssh_tunnel_direct = 1

abbrev pub ssh_tunnel_socks_proxy : ℕ
ssh_tunnel_socks_proxy = 2

abbrev pub ssh_tunnel_null : ℕ
ssh_tunnel_null = 3

abbrev named : ℕ → Bytes → SshTunnel
named id name = record (new_ssh_tunnel id) { name = name }

-- Called first, so that the three have the first three ids.
abbrev pub ssh_tunnel_init : List SshTunnel → List SshTunnel
ssh_tunnel_init head =
    insert_ssh_tunnel
      (insert_ssh_tunnel (insert_ssh_tunnel head (named ssh_tunnel_direct (codes "direct")))
        (named ssh_tunnel_socks_proxy (codes "socks_proxy")))
      (named ssh_tunnel_null (codes "null"))

-- The loop of `parse_route_rule_spec` over the list: the first tunnel of a name.
unfoldable pub find_tunnel : Bytes → List SshTunnel → Option SshTunnel
find_tunnel name [] = none
find_tunnel name (ssh ∷ list) = if str_eq ssh.name name then some ssh else find_tunnel name list
