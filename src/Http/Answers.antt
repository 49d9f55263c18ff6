-- ===== src/Http/Answers.antt =====
-- What goes out, for a request of a file.
use Prim.Native.Nat.{min}
use smart_socksproxy.Base.{
  ℕ, ◌<◌, ◌≡◌, ◌≢◌, if-all, some, ◌==◌, refl, sym, ap, ◌∙◌, Bool, true, false, Option, List, [],
  ◌∷◌, ◌++◌, append_assoc, append-nil, Bytes, codes, length, take, drop, ◌+◌, ◌-◌, ltb, take_all,
  All, str_eq, leb, if◌then◌else◌, arith,
}
use smart_socksproxy.Io.{
  Slot, Sent, count, eintr, accepts, broken, IsOpen, Sends, sb_write_len, sb_write_len-Sends,
  write_retry, write, write_more,
}
use smart_socksproxy.Text.{string_starts_with}
use smart_socksproxy.Clib.{strncpy}
use smart_socksproxy.Http.Request.{is_allowed, content_type}
use smart_socksproxy.Http.Safety.{allowed-not_blank, get_safe_filename_from_request-allowed}
use smart_socksproxy.Http.Respond.{
  Exchange, errno_behind, send_string, send_all, send_chunks, basic_response, header, File, chunks,
  full_filename, answer_file, return_file_contents,
}

abbrev pub concat : List Bytes → Bytes
concat [] = []
concat (s ∷ ss) = s ++ concat ss

-- No `write` fails.
abbrev pub IsQuiet : List Slot → Type 0
IsQuiet [] = Unit
IsQuiet (accepts k ∷ ss) = IsQuiet ss
IsQuiet (broken e ∷ ss) = ⊥

IsQuiet-IsOpen : (ss : List Slot) → IsQuiet ss → IsOpen ss
IsQuiet-IsOpen [] q = tt
IsQuiet-IsOpen (accepts k ∷ ss) q = IsQuiet-IsOpen ss q
IsQuiet-IsOpen (broken e ∷ ss) q = absurd q

-- A `write` without a failure leaves `errno`.
errno_behind-IsQuiet :
    (e : ℕ) (before after : List Slot) → IsQuiet before → errno_behind e before after ≡ e
unfolding errno_behind
errno_behind-IsQuiet e [] after q = refl
errno_behind-IsQuiet e (accepts k ∷ before) after q =
    if-all (λ n. n ≡ e) (leb (length before) (length after)) _ _ refl
      (errno_behind-IsQuiet e before after q)
errno_behind-IsQuiet e (broken d ∷ before) after q = absurd q

any_end :
    (b c : Bool) (x y z : Sent)
    → IsQuiet x.slots
    → IsQuiet y.slots
    → IsQuiet z.slots
    → IsQuiet (if b then x else if c then y else z).slots
any_end b c x y z qx qy qz =
    if-all (λ (w : Sent). IsQuiet w.slots) b x (if c then y else z) qx
      (if-all (λ (w : Sent). IsQuiet w.slots) c y z qy qz)

sb_write_len-IsQuiet :
    (index : ℕ) (buf out : Bytes) (ss : List Slot)
    → IsQuiet ss
    → IsQuiet (sb_write_len index buf out ss).slots
unfolding sb_write_len write write_more
sb_write_len-IsQuiet index buf out [] q =
    let n = length buf in
    any_end (ltb 0 (n - n)) (ltb 0 n) (write (drop n buf) (out ++ buf) [])
      (record { rc = count (index + n); out = out ++ buf; slots = [] }) (write buf out []) tt tt tt
sb_write_len-IsQuiet index buf out (accepts k ∷ ss) q =
    let n = min k (length buf) in
    any_end (ltb 0 (length buf - n)) (ltb 0 n)
      (sb_write_len (index + n) (drop n buf) (out ++ take k buf) ss)
      (record { rc = count (index + n); out = out ++ take k buf; slots = ss })
      (record { rc = count n; out = out ++ take k buf; slots = ss })
      (sb_write_len-IsQuiet (index + n) (drop n buf) (out ++ take k buf) ss q) q q
sb_write_len-IsQuiet index buf out (broken e ∷ ss) q = absurd q

-- A step that sent `text` and changed nothing else.
pub record Answers (r : Bool × Exchange) (x : Exchange) (text : Bytes) : Type 0 where
  pub ok : r.0 ≡ true
  pub sent : r.1.sent ≡ x.sent ++ text
  pub quiet : IsQuiet r.1.slots
  pub errno : r.1.errno ≡ x.errno
  pub con : r.1.con ≡ x.con
  pub input : r.1.input ≡ x.input

write_nothing :
    (out : Bytes) (ss : List Slot) → IsOpen ss → Sends (sb_write_len 0 [] out ss) (out ++ []) 0
unfolding sb_write_len write write_more
write_nothing out [] o = record { rc = refl; out = refl; open_slots = tt }
write_nothing out (accepts k ∷ ss) o =
    let m : min k 0 ≡ 0 = omega arith in
    rw m
      (record { rc = refl; out = ap (λ l. out ++ l) (take_all k [] (omega arith)); open_slots = o })
write_nothing out (broken e ∷ ss) o = rw (write_retry 0 e [] out ss o.0) (write_nothing out ss o.1)

any-Sends :
    (buf out : Bytes) (ss : List Slot)
    → IsOpen ss
    → Sends (sb_write_len 0 buf out ss) (out ++ buf) (length buf)
any-Sends [] out ss o = write_nothing out ss o
any-Sends (b ∷ buf) out ss o = sb_write_len-Sends (b ∷ buf) out ss o (omega arith)

send_string-Answers :
    (str : Bytes) (x : Exchange) → IsQuiet x.slots → Answers (send_string str x) x str
unfolding send_string
send_string-Answers str x o =
    let w = any-Sends str x.sent x.slots (IsQuiet-IsOpen x.slots o) in
    record {
      ok = rw (w.rc) (ground arith);
      sent = w.out;
      quiet = sb_write_len-IsQuiet 0 str x.sent x.slots o;
      errno = errno_behind-IsQuiet x.errno x.slots _ o;
      con = refl;
      input = refl;
    }

Answers-then :
    {q r : Bool × Exchange} {x : Exchange} (s t : Bytes)
    → Answers q x s
    → Answers r q.1 t
    → Answers r x (s ++ t)
Answers-then {q} {r} {x} s t a b = record {
  ok = b.ok;
  sent = b.sent ∙ ap (λ l. l ++ t) a.sent ∙ append_assoc x.sent s t;
  quiet = b.quiet;
  errno = b.errno ∙ a.errno;
  con = b.con ∙ a.con;
  input = b.input ∙ a.input;
}

send_all-Answers :
    (ss : List Bytes) (x : Exchange) → IsQuiet x.slots → Answers (send_all ss x) x (concat ss)
unfolding send_all
send_all-Answers [] x o = record {
  ok = refl;
  sent = sym (append-nil x.sent);
  quiet = o;
  errno = refl;
  con = refl;
  input = refl;
}
send_all-Answers (s ∷ ss) x o =
    let first = send_string-Answers s x o in
    let later = send_all-Answers ss (send_string s x).1 first.quiet in
    rw (first.ok) (Answers-then s (concat ss) first later)

send_chunks-Answers :
    (cs : List Bytes) (x : Exchange)
    → IsQuiet x.slots
    → x.errno ≢ eintr
    → (r : Bool × Exchange) × (send_chunks cs (true, x) ≡ some r) × Answers r x (concat cs)
unfolding send_chunks
send_chunks-Answers [] x o ne =
    let other : (x.errno == eintr) ≡ false = ground (arith, ne) in
    (
      (true, x),
      rw other refl,
      record {
        ok = refl;
        sent = sym (append-nil x.sent);
        quiet = o;
        errno = refl;
        con = refl;
        input = refl;
      },
    )
send_chunks-Answers (c ∷ cs) x o ne =
    let first = send_string-Answers c x o in
    let (r, e, later) =
      send_chunks-Answers cs (send_string c x).1 first.quiet (λ q. ne (sym first.errno ∙ q)) in
    (r, rw (first.ok) e, Answers-then c (concat cs) first later)

never : (b : Bool) → (if b then false else false) ≡ false
never true = refl
never false = refl

not_root :
    (c : ℕ) (s : Bytes)
    → is_allowed c ≡ true
    → string_starts_with (codes "GET /" ++ c ∷ s) (codes "GET / ") ≡ false
unfolding string_starts_with str_eq
not_root c s h = rw (allowed-not_blank c h) (never (leb 6 (length (codes "GET /" ++ c ∷ s))))

basic_response-Answers :
    (response : Bytes) (content : Option Bytes) (x : Exchange)
    → IsQuiet x.slots
    → Answers (basic_response response content x) x (concat (header response content))
unfolding basic_response
basic_response-Answers response content x o = send_all-Answers (header response content) x o

file_answer :
    (cs : List Bytes) (response : Bytes) (content : Option Bytes) (x : Exchange)
    → IsQuiet x.slots
    → x.errno ≢ eintr
    → (r : Bool × Exchange) × (send_chunks cs (basic_response response content x) ≡ some r)
      × (r.1.sent ≡ x.sent ++ (concat (header response content) ++ concat cs))
file_answer cs response content x o ne =
    let head = basic_response-Answers response content x o in
    let (r, e, body) =
      send_chunks-Answers cs (basic_response response content x).1 head.quiet
        (λ q. ne (sym head.errno ∙ q)) in
    (
      r,
      ap (λ b. send_chunks cs (b, (basic_response response content x).1)) head.ok ∙ e,
      (Answers-then (concat (header response content)) (concat cs) head body).sent,
    )

-- A request of a file by a name of allowed characters, one at least and fewer than 4095, gets the
-- file of that name in the directory: on a descriptor on which no `write` fails, and where EINTR does
-- not stand in `errno` before, the answer ends, and the header with the name's content type and then
-- the whole of the file are sent, in this order and nothing else.
pub return_file_contents-chunks :
    (files : Bytes → File) (base_dir : Bytes) (c : ℕ) (name rest : Bytes) (cs : List Bytes)
    (x : Exchange)
    → All (λ b. is_allowed b ≡ true) (c ∷ name)
    → length (c ∷ name) < 4095
    → files (full_filename base_dir (c ∷ name)) ≡ chunks cs
    → IsQuiet x.slots
    → x.errno ≢ eintr
    → (x' : Exchange) × (return_file_contents files base_dir
          (codes "GET /" ++ (c ∷ name) ++ b' ' ∷ rest)
          x
        ≡ some (codes "200 OK", x'))
      × (x'.sent
          ≡ x.sent ++ (concat (header (codes "200 OK") (content_type (c ∷ name))) ++ concat cs))
unfolding return_file_contents answer_file
return_file_contents-chunks files base_dir c name rest cs x h k is o ne =
    let named = get_safe_filename_from_request-allowed (c ∷ name) rest 4095 h k in
    let (r, e, sent) =
      file_answer cs (codes "200 OK") (content_type (c ∷ name))
        (record x { con = record x.con { url_path = strncpy (c ∷ name) 4096 } }) o ne in
    (r.1, rw (not_root c (name ++ b' ' ∷ rest) h.0, named, is, e) refl, sent)
