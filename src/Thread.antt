-- ===== src/Thread.antt =====
-- service_thread.c and safe_close.c: what a thread does to its connection at the end.
use smart_socksproxy.Base.{
  ℕ, Bool, true, not, ◌&&◌, some, codes, ◌==◌, if◌then◌else◌, List, [], ◌∷◌, ◌++◌, ℤ, pos, negsuc,
}
use smart_socksproxy.Connection.{
  ClientConnection, ccstatus_okay, ccstatus_error, set_client_connection_status,
}

-- The descriptors that `safe_close` closes: those that are not negative.
abbrev pub safe_close : ℤ → List ℕ
safe_close (pos fd) = fd ∷ []
safe_close (negsuc n) = []

-- The connection, and the descriptors that are closed, in their order; `now` is `time(NULL)`.
unfoldable pub service_thread_shutdown : ℕ → Bool → ClientConnection → ClientConnection × List ℕ
service_thread_shutdown now ok con =
    let con' =
      if not ok && con.status == ccstatus_okay
      then set_client_connection_status con ccstatus_error (some (codes "Error"))
          (some (codes "Unknown error; closing connction."))
      else con in
    (
      record con' { fd_in = negsuc 0; fd_out = negsuc 0; end_time = now; thread_has_exited = true },
      safe_close con'.fd_in ++ safe_close con'.fd_out,
    )
