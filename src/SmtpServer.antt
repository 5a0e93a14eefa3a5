-- ===== src/SmtpServer.antt =====
-- crates/mail-mock-server/src/smtp_server.rs: a connection of the mock SMTP server. A line has its
-- line end, as `read_line` gives it; one that is not UTF-8, which ends the connection, is left out.
pub mod Body
pub mod Access
use esmail.Prelude.{
  ℕ, Bool, true, false, not, ◌&&◌, ◌||◌, Option, none, some, List, [], ◌∷◌, ◌++◌, Str, codes,
  is_empty, is_some, is_none, if◌then◌else◌, Bytes, as_bytes, str_eq, to_ascii_uppercase, trim,
  split_once, starts_with, strip_prefix, trim_end_where, drop, ◌==◌,
}
use esmail.MockStore.{Store, Envelope, check_login, check_xoauth2, deliver}

-- The decoders, and the parser of `store.rs`'s envelopes.
pub record Libraries : Type 0 where
  pub base64_decode : Str → Option Bytes
  pub from_utf8 : Bytes → Option Str
  pub parse_envelope : Bytes → Envelope

-- The connection reads commands or, after DATA, the lines of a body, with the bytes it has so far.
pub data Mode : Type 0 where
  command closed : Mode
  body : Bytes → Mode

pub record Session : Type 0 where
  pub authenticated : Bool
  pub recipients : List Str
  pub mode : Mode

-- What a turn writes, and the session and the store after it.
pub record Turn : Type 0 where
  pub out : List Str
  pub session : Session
  pub store : Store

abbrev pub start : Session
start = record { authenticated = false; recipients = []; mode = command }

abbrev pub reply : Str → Session → Store → Turn
reply text s st = record { out = text ∷ []; session = s; store = st }

-- The two fields behind the first zero byte; the second takes the rest.
abbrev pub login_fields : Bytes → Option (Bytes × Bytes)
login_fields decoded = elim (split_once 0 decoded) [
  | none ↦ none
  | some (authzid, rest) ↦ split_once 0 rest
]

abbrev pub login_texts : Libraries → Option (Bytes × Bytes) → Option (Str × Str)
login_texts lib none = none
login_texts lib (some (authcid, password)) = elim (lib.from_utf8 authcid) [
  | none ↦ none
  | some user ↦ elim (lib.from_utf8 password) [ none ↦ none | some pass ↦ some (user, pass) ]
]

abbrev pub login_holds : Store → Option (Str × Str) → Bool
login_holds st none = false
login_holds st (some (user, pass)) = check_login user pass st

unfoldable pub authenticate_plain : Libraries → Store → Str → Bool
authenticate_plain lib st arg = elim (lib.base64_decode arg) [
  | none ↦ false
  | some decoded ↦ login_holds st (login_texts lib (login_fields decoded))
]

unfoldable pub authenticate_xoauth2 : Libraries → Store → Str → Bool
authenticate_xoauth2 lib st arg = elim (lib.base64_decode arg) [
  | none ↦ false
  | some payload ↦ is_some (check_xoauth2 lib.from_utf8 payload st)
]

unfoldable pub extract_angle_address : Str → Option Str
extract_angle_address l = elim (split_once b'<' l) [
  | none ↦ none
  | some (before, rest) ↦ elim (split_once b'>' rest) [
    | none ↦ none
    | some (addr, after) ↦ some addr
  ]
]

abbrev pub mailbox_for_recipient : Str → Str
mailbox_for_recipient recipient = codes "INBOX"

-- The bytes that a line of the body adds, or `none` for the line that ends it.
unfoldable pub body_line : Str → Option Bytes
body_line l =
    if str_eq l (codes ".\r\n") || str_eq l (codes ".\n")
    then none
    else elim (strip_prefix l (codes "..")) [
      | some stripped ↦ some (codes "." ++ as_bytes stripped)
      | none ↦ some (as_bytes l)
    ]

-- The body that starts with these lines, and the lines behind it; `none` when the stream ends first.
unfoldable pub read_dot_terminated_body : Bytes → List Str → Option (Bytes × List Str)
read_dot_terminated_body raw [] = none
read_dot_terminated_body raw (l ∷ ls) = elim (body_line l) [
  | none ↦ some (raw, ls)
  | some bytes ↦ read_dot_terminated_body (raw ++ bytes) ls
]

-- Each recipient gets the message.
unfoldable pub deliver_all : Libraries → List Str → Bytes → Store → Store
deliver_all lib [] raw st = st
deliver_all lib (r ∷ rs) raw st =
    deliver_all lib rs raw (deliver lib.parse_envelope (mailbox_for_recipient r) raw st).0

abbrev pub authenticated_as : Bool → Session → Store → Turn
authenticated_as ok s st =
    reply
      (if ok
        then codes "235 Authentication successful\r\n"
        else codes "535 Authentication failed\r\n")
      (record s { authenticated = ok }) st

abbrev pub add_recipient : Option Str → List Str → List Str
add_recipient none rs = rs
add_recipient (some addr) rs = rs ++ addr ∷ []

abbrev pub auth_required : Session → Store → Turn
auth_required s st = reply (codes "530 Authentication required\r\n") s st

-- A command, without its line end, and the same in capitals.
unfoldable pub run_command : Libraries → Str → Str → Session → Store → Turn
unfolding authenticate_xoauth2 authenticate_plain extract_angle_address
run_command lib trimmed upper s st =
    let is = λ (name : Str). starts_with upper name in
    if is (codes "EHLO") || is (codes "HELO")
    then reply (codes "250-esmail mock server\r\n250 AUTH PLAIN XOAUTH2\r\n") s st
    else if is (codes "AUTH XOAUTH2")
    then authenticated_as (authenticate_xoauth2 lib st (trim (drop 12 trimmed))) s st
    else if is (codes "AUTH PLAIN")
    then authenticated_as (authenticate_plain lib st (trim (drop 10 trimmed))) s st
    else if is (codes "MAIL FROM")
    then if s.authenticated
      then reply (codes "250 OK\r\n") (record s { recipients = [] }) st
      else auth_required s st
    else if is (codes "RCPT TO")
    then if s.authenticated
      then reply (codes "250 OK\r\n")
          (record s { recipients = add_recipient (extract_angle_address trimmed) s.recipients }) st
      else auth_required s st
    else if is (codes "DATA")
    then if not s.authenticated || is_empty s.recipients
      then reply (codes "503 bad sequence of commands\r\n") s st
      else reply (codes "354 Start mail input; end with <CRLF>.<CRLF>\r\n")
          (record s { mode = body [] }) st
    else if is (codes "RSET")
    then reply (codes "250 OK\r\n") (record s { recipients = [] }) st
    else if is (codes "NOOP")
    then reply (codes "250 OK\r\n") s st
    else if is (codes "QUIT")
    then reply (codes "221 Bye\r\n") (record s { mode = closed }) st
    else reply (codes "500 unrecognized command\r\n") s st

-- One more line of a body.
unfoldable pub on_body : Libraries → Bytes → Option Bytes → Session → Store → Turn
unfolding deliver_all
on_body lib raw (some bytes) s st = record {
  out = [];
  session = record s { mode = body (raw ++ bytes) };
  store = st;
}
on_body lib raw none s st =
    reply (codes "250 OK Message accepted\r\n") (record s { mode = command })
      (deliver_all lib s.recipients raw st)

abbrev pub without_end : Str → Str
without_end l = trim_end_where (λ c. c == 13 || c == 10) l

unfoldable pub on_line : Libraries → Mode → Str → Session → Store → Turn
unfolding run_command on_body body_line
on_line lib command l s st =
    run_command lib (without_end l) (to_ascii_uppercase (without_end l)) s st
on_line lib (body raw) l s st = on_body lib raw (body_line l) s st
on_line lib closed l s st = record { out = []; session = s; store = st }

-- A line, or the end of the stream, which gives up a body that is not complete.
unfoldable pub step : Libraries → Option Str → Session → Store → Turn
unfolding on_line
step lib (some l) s st = on_line lib s.mode l s st
step lib none s st = record { out = []; session = record s { mode = closed }; store = st }
