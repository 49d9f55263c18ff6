-- ===== src/Http/Respond.antt =====
-- The answers of the web server.
use smart_socksproxy.Base.{
  ℕ, zero, suc, Bool, true, false, ◌&&◌, Option, none, some, List, [], ◌∷◌, ◌++◌, Bytes, codes,
  length, ltb, leb, ◌==◌, if◌then◌else◌,
}
use smart_socksproxy.Io.{
  Event, chunk, failed, Slot, accepts, broken, eintr, Rc, count, error, eq_count, sb_write_len,
}
use smart_socksproxy.Text.{string_starts_with}
use smart_socksproxy.Clib.{strncpy}
use smart_socksproxy.Connection.{ClientConnection}
use smart_socksproxy.Host.{c_string}
use smart_socksproxy.Thread.{service_thread_shutdown}
use smart_socksproxy.Http.Request.{
  content_type, get_safe_filename_from_request, read_one_line_safely,
}

-- A connection, the client's descriptor, and `errno`, which only a call that fails sets: the calls for
-- the log and the file are taken to leave it.
pub record Exchange : Type 0 where
  pub errno : ℕ
  pub con : ClientConnection
  pub input : List Event
  pub slots : List Slot
  pub sent : Bytes

-- What `access`, `open` and the `read` calls give for a path: `chunks` are the pieces up to the 0 at
-- the end of the file, each of 1 to 999 bytes.
pub data File : Type 0 where
  missing : File
  unreadable : File
  chunks : List Bytes → File

-- `errno` behind the `write` calls that took `before` down to `after`.
unfoldable pub errno_behind : ℕ → List Slot → List Slot → ℕ
errno_behind e [] after = e
errno_behind e (accepts k ∷ before) after =
    let rest = errno_behind e before after in if leb (length before) (length after) then e else rest
errno_behind e (broken d ∷ before) after =
    let rest = errno_behind d before after in
    if ltb (length before) (length after)
    then e
    else if length before == length after
    then d
    else rest

-- The same of `read` calls.
unfoldable pub errno_behind_reads : ℕ → List Event → List Event → ℕ
errno_behind_reads e [] after = e
errno_behind_reads e (chunk b ∷ before) after =
    let rest = errno_behind_reads e before after in
    if leb (length before) (length after) then e else rest
errno_behind_reads e (failed d ∷ before) after =
    let rest = errno_behind_reads d before after in
    if ltb (length before) (length after)
    then e
    else if length before == length after
    then d
    else rest

-- `sb_write_len(con->fd_in, buf, n) == n`
unfoldable pub send_string : Bytes → Exchange → Bool × Exchange
unfolding errno_behind
send_string str x =
    let w = sb_write_len 0 str x.sent x.slots in
    (
      eq_count w.rc (length str),
      record x { sent = w.out; slots = w.slots; errno = errno_behind x.errno x.slots w.slots },
    )

-- A row of `if (ok) ok=send_string(con, …)`.
unfoldable pub send_all : List Bytes → Exchange → Bool × Exchange
send_all [] x = (true, x)
send_all (s ∷ ss) x =
    let (ok, x') = send_string s x in let more = send_all ss x' in if ok then more else (false, x')

-- The strings of the header.
abbrev pub header : Bytes → Option Bytes → List Bytes
header response content =
    codes "HTTP/1.1 "
    ∷ response
    ∷ codes "\n"
    ∷ codes "Server: SmartSOCKSProxy/1.0\n"
    ∷ codes "Connection: Closed\n"
    ∷ codes "Transfer-Encoding: identity\n"
    ∷ elim content [
      | none ↦ codes "\n" ∷ []
      | some t ↦ codes "Content-Type: " ∷ t ∷ codes "\n" ∷ codes "\n" ∷ []
    ]

unfoldable pub basic_response : Bytes → Option Bytes → Exchange → Bool × Exchange
basic_response response content x = send_all (header response content) x

-- The loop over the file. A chunk is sent even where the header fell short; the loop ends at the
-- first chunk that does not get through. Behind the last chunk `read` gives 0 and leaves `errno` as it
-- is, so the loop never ends, for which there is `none`, where that is EINTR.
unfoldable pub send_chunks : List Bytes → Bool × Exchange → Option (Bool × Exchange)
send_chunks [] (ok, x) = if ok && x.errno == eintr then none else some (ok, x)
send_chunks (c ∷ cs) (ok, x) =
    let (sent, x') = send_string c x in
    let more = send_chunks cs (true, x') in if ok && sent then more else some (false, x')

-- The path that is opened.
abbrev pub full_filename : Bytes → Bytes → Bytes
full_filename base_dir filename = base_dir ++ b'/' ∷ filename

abbrev pub with_response : Bytes → Option (Bool × Exchange) → Option (Bytes × Exchange)
with_response response none = none
with_response response (some (ok, x)) = some (response, x)

unfoldable pub answer_file : File → Bytes → Exchange → Option (Bytes × Exchange)
answer_file missing filename x =
    with_response (codes "404 Not Found") (some (basic_response (codes "404 Not Found") none x))
answer_file unreadable filename x =
    with_response (codes "404 Not Found") (some (basic_response (codes "404 Not Found") none x))
answer_file (chunks cs) filename x =
    with_response (codes "200 OK")
      (send_chunks cs (basic_response (codes "200 OK") (content_type filename) x))

-- The response, and what is left of the exchange, if it ends.
unfoldable pub return_file_contents :
    (Bytes → File) → Bytes → Bytes → Exchange → Option (Bytes × Exchange)
return_file_contents files base_dir request x =
    let filename = get_safe_filename_from_request request 4095 in
    if string_starts_with request (codes "GET / ")
    then answer_file (files (full_filename base_dir (codes "index.html"))) (codes "index.html") x
    else answer_file (files (full_filename base_dir filename)) filename
        (record x { con = record x.con { url_path = strncpy filename 4096 } })

-- What the main loop leaves for the thread that asked for the state: nothing in time, no text, or
-- a text.
unfoldable pub return_connection_state_json : Option (Option Bytes) → Exchange → Bytes × Exchange
return_connection_state_json answer x =
    let asked = record x { con = record x.con { json_status_requested = true } } in
    let (ok, x1) = send_string (codes "HTTP/1.1 ") asked in
    elim answer [
      | none ↦
          let (ok2, x2) = basic_response (codes "503 Service Unavailable") none x1 in
          (codes "503 Service Unavailable", if ok then x2 else x1)
      | some json ↦
          let ready = record x1 { con = record x1.con { json_status_ready = true } } in
          let (ok2, x2) =
            basic_response (codes "200 OK") (some (codes " application/json")) ready in
          (codes "200 OK", if ok then (if ok2 then send_text json x2 else x2) else ready)
    ]
  where
    send_text : Option Bytes → Exchange → Exchange
    send_text none x = x
    send_text (some s) x = (send_string s x).1

abbrev pub exchange_of : Option (Bytes × Exchange) → Option Exchange
exchange_of none = none
exchange_of (some (response, x)) = some x

unfoldable pub respond_to :
    (Bytes → File) → Bytes → Option (Option Bytes) → Bytes → Exchange → Option Exchange
respond_to files base_dir answer request x =
    if string_starts_with request (codes "GET /status.json ")
    then some
        (return_connection_state_json answer
          (record x { con = record x.con { url_path = codes "status.json" } })).1
    else if string_starts_with request (codes "GET /")
    then exchange_of (return_file_contents files base_dir request x)
    else some (basic_response (codes "400 Bad Request") none x).1

-- The request line is a C string: it ends at a zero byte. A request with no line gets no answer.
unfoldable pub respond_to_line :
    (Bytes → File) → Bytes → Option (Option Bytes) → Rc → Bytes → Exchange → Option Exchange
respond_to_line files base_dir answer (error e) line x = some x
respond_to_line files base_dir answer (count zero) line x = some x
respond_to_line files base_dir answer (count (suc n)) line x =
    respond_to files base_dir answer (c_string line) x

-- The descriptors that are closed go along.
abbrev pub shut_down : ℕ → Option Exchange → Option (Exchange × List ℕ)
shut_down now none = none
shut_down now (some x) =
    let (con, closed) =
      service_thread_shutdown now true (record x.con { json_status_str = none }) in
    some (record x { con = con }, closed)

-- The exchange that the handler leaves and the descriptors it closes, if it ends; `now` is the time of its end.
unfoldable pub service_http_connection_handler :
    (Bytes → File) → Bytes → Option (Option Bytes) → ℕ → Exchange → Option (Exchange × List ℕ)
service_http_connection_handler files base_dir answer now x =
    let r = read_one_line_safely 999 x.input in
    shut_down now (
      respond_to_line files base_dir answer r.rc r.buf
        (record x { input = r.rest; errno = errno_behind_reads x.errno x.input r.rest }))
