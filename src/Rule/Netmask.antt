-- ===== src/Rule/Netmask.antt =====
-- The address and netmask of `network`, `map` and `to`. The C library's `inet_pton` is a parameter.
use smart_socksproxy.Base.{
  ℕ, ◌-◌, ◌*◌, ◌%◌, ◌^◌, Bool, ◌&&◌, Option, none, some, Bytes, leb, ◌==◌, if◌then◌else◌, ntohl, ℤ,
  pos, negsuc,
}
use smart_socksproxy.Clib.{strsep, scan_int}

abbrev pub all_ones : ℕ
all_ones = 0xffff_ffff

-- `(0xffffffff << (32 - prefix)) & 0xffffffff`, on 32-bit words. C defines the shift for 0 to 31
-- places only.
abbrev pub prefix_mask : ℤ → Option ℕ
prefix_mask (pos prefix) =
    if leb 1 prefix && leb prefix 32 then some (all_ones * 2 ^ (32 - prefix) % 2 ^ 32) else none
prefix_mask (negsuc n) = none

-- What `route_rule_grab_netv4` does with a parameter: it sets the three fields, it does not
-- understand it, or the shift is undefined.
pub data Netv4 : Type 0 where
  network : ℕ → ℕ → Netv4
  unreadable : Netv4
  undefined_shift : Netv4

-- `convert_string_to_ipv4_ulong`
unfoldable pub convert_string_to_ipv4_ulong : (Bytes → Option Bytes) → Bytes → Option ℕ
convert_string_to_ipv4_ulong pton s = elim (pton s) [ none ↦ none | some a ↦ some (ntohl a) ]

-- A mask as a prefix length, "/24".
unfoldable pub by_prefix : ℕ → Bytes → Netv4
by_prefix addr mask = elim (scan_int mask) [
  | none ↦ unreadable
  | some prefix ↦ elim (prefix_mask prefix) [ none ↦ undefined_shift | some m ↦ network addr m ]
]

unfoldable pub with_mask : (Bytes → Option Bytes) → ℕ → Option Bytes → Netv4
unfolding convert_string_to_ipv4_ulong by_prefix
with_mask pton addr none = network addr all_ones
with_mask pton addr (some mask) = elim (convert_string_to_ipv4_ulong pton mask) [
  | some m ↦ network addr m
  | none ↦ by_prefix addr mask
]

abbrev pub is_slash : ℕ → Bool
is_slash c = c == b'/'

-- The second `strsep` gives what stands before a second slash, and nothing if there was no first.
unfoldable pub mask_part : Option Bytes → Option Bytes
mask_part none = none
mask_part (some rest) = some (strsep is_slash rest).0

unfoldable pub route_rule_grab_netv4 : (Bytes → Option Bytes) → Bytes → Netv4
unfolding with_mask mask_part convert_string_to_ipv4_ulong
route_rule_grab_netv4 pton param =
    let (ipaddr, rest) = strsep is_slash param in
    elim (convert_string_to_ipv4_ulong pton ipaddr) [
      | none ↦ unreadable
      | some addr ↦ with_mask pton addr (mask_part rest)
    ]
