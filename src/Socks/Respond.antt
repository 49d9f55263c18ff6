-- ===== src/Socks/Respond.antt =====
-- The replies to the clients: `socks4_respond`, `socks5_respond` and `socks_respond`.
use smart_socksproxy.Base.{ℕ, ◌%◌, Bool, [], ◌∷◌, Bytes, length, ◌==◌, if◌then◌else◌, pos, eq_ℤ}
use smart_socksproxy.Io.{eq_count}
use smart_socksproxy.Socks.State.{Session, send}

abbrev pub reply_succeed : ℕ
reply_succeed = 0

-- 90 grants the request, 91 rejects it.
unfoldable pub socks4_reply : ℕ → Bytes
socks4_reply failure_type =
    0 ∷ (if failure_type == reply_succeed then 90 else 91) ∷ 0 ∷ 0 ∷ 0 ∷ 0 ∷ 0 ∷ 0 ∷ []

-- `(unsigned char)failure_type`; the address is IPv4 and all zero.
unfoldable pub socks5_reply : ℕ → Bytes
socks5_reply failure_type = 5 ∷ failure_type % 256 ∷ 0 ∷ 1 ∷ 0 ∷ 0 ∷ 0 ∷ 0 ∷ 0 ∷ 0 ∷ []

-- `rc = sb_write_len(con->fd_in,buf,idx)`, and whether `rc == idx`.
reply : Bytes → Session → Bool × Session
unfolding send
reply buf s = let (rc, s') = send buf s in (eq_count rc (length buf), s')

unfoldable pub socks4_respond : ℕ → Session → Bool × Session
unfolding reply socks4_reply
socks4_respond failure_type s = reply (socks4_reply failure_type) s

unfoldable pub socks5_respond : ℕ → Session → Bool × Session
unfolding reply socks5_reply
socks5_respond failure_type s = reply (socks5_reply failure_type) s

unfoldable pub socks_respond : ℕ → Session → Bool × Session
unfolding socks4_respond socks5_respond
socks_respond failure_type s =
    if eq_ℤ s.con.socks_version (pos 4)
    then socks4_respond failure_type s
    else socks5_respond failure_type s
