-- ===== src/ImapServer/Connection.antt =====
-- `handle_connection` of crates/mail-mock-server/src/imap_server.rs: which command a line is, and
-- what each event does in each mode of the connection.
pub mod Access
mod SignedIn
pub mod Completion
pub mod Waiting
pub mod Answers
use esmail.Prelude.{
  ℕ, Bool, true, false, ◌&&◌, ◌||◌, Option, none, some, List, [], ◌∷◌, Str, codes, is_none, ◌==◌,
  if◌then◌else◌, length, get_elem?, concat, str_eq, eq_ignore_ascii_case, to_ascii_uppercase,
  trim_end_where, unwrap_or,
}
use esmail.Prelude.Decimal.{to_string}
use esmail.MockStore.{Store, Mailbox, get}
use esmail.ImapServer.Syntax.{tokenize}
use esmail.ImapServer.State.{
  Libraries, Mode, command, closed, authenticating, acknowledging, appending, idling, Session,
  Event, line, bytes, delivered, end_of_stream, Turn, tagged, plain_line, answer, refuse, let_some,
}
use esmail.ImapServer.Access.{
  login, authenticate, authenticate_as, xoauth2_user, list, select, not_authenticated,
}
use esmail.ImapServer.Fetch.{no_mailbox, fetch, uid_fetch, status}
use esmail.ImapServer.Change.{append, appended, store, copy, expunge_selected}

unfoldable pub idle : Str → Session → Store → Turn
idle tag s st =
    if is_none s.authenticated_user
    then refuse tag not_authenticated s st
    else let_some s.selected_mailbox (refuse tag no_mailbox s st) (λ name.
      answer (plain_line (codes "+ idling") ∷ []) (record s { mode = idling tag name }) st)

-- The commands by their verbs.
pub data Verb : Type 0 where
  login_verb authenticate_verb list_verb select_verb fetch_verb uid_fetch_verb append_verb
        store_verb copy_verb expunge_verb status_verb logout_verb capability_verb idle_verb
        noop_verb unknown_verb :
      Verb

-- The arms of the `match`, in order, with their guards; `sub` is the third token.
unfoldable pub verb_of : Str → Str → Verb
verb_of verb sub =
    let is = λ (name : Str). str_eq verb name in
    let is_uid = λ (name : Str). str_eq verb (codes "UID") && eq_ignore_ascii_case sub name in
    if is (codes "LOGIN")
    then login_verb
    else if is (codes "AUTHENTICATE")
    then authenticate_verb
    else if is (codes "LIST")
    then list_verb
    else if is (codes "EXAMINE") || is (codes "SELECT")
    then select_verb
    else if is (codes "FETCH")
    then fetch_verb
    else if is_uid (codes "FETCH")
    then uid_fetch_verb
    else if is (codes "APPEND")
    then append_verb
    else if is (codes "STORE") || is_uid (codes "STORE")
    then store_verb
    else if is (codes "COPY") || is_uid (codes "COPY")
    then copy_verb
    else if is (codes "EXPUNGE") || is_uid (codes "EXPUNGE")
    then expunge_verb
    else if is (codes "STATUS")
    then status_verb
    else if is (codes "LOGOUT")
    then logout_verb
    else if is (codes "CAPABILITY")
    then capability_verb
    else if is (codes "IDLE")
    then idle_verb
    else if is (codes "NOOP")
    then noop_verb
    else unknown_verb

unfoldable pub run_verb : Libraries → Verb → Str → Str → List Str → Session → Store → Turn
unfolding login authenticate list select fetch uid_fetch append store copy expunge_selected status
    idle
run_verb lib login_verb tag verb tokens s st =
    login tag (get_elem? tokens 2) (get_elem? tokens 3) s st
run_verb lib authenticate_verb tag verb tokens s st =
    authenticate lib tag (get_elem? tokens 2) (get_elem? tokens 3) s st
run_verb lib list_verb tag verb tokens s st = list tag s st
run_verb lib select_verb tag verb tokens s st = select tag verb (get_elem? tokens 2) s st
run_verb lib fetch_verb tag verb tokens s st = fetch tag (get_elem? tokens 2) s st
run_verb lib uid_fetch_verb tag verb tokens s st = uid_fetch tag tokens s st
run_verb lib append_verb tag verb tokens s st =
    append tag (get_elem? tokens 2) (get_elem? tokens 3) s st
run_verb lib store_verb tag verb tokens s st = store tag (str_eq verb (codes "UID")) tokens s st
run_verb lib copy_verb tag verb tokens s st = copy tag (str_eq verb (codes "UID")) tokens s st
run_verb lib expunge_verb tag verb tokens s st = expunge_selected tag s st
run_verb lib status_verb tag verb tokens s st = status tag (get_elem? tokens 2) s st
run_verb lib logout_verb tag verb tokens s st =
    answer (plain_line (codes "* BYE logging out") ∷ tagged tag (codes "OK LOGOUT completed") ∷ [])
      (record s { mode = closed }) st
run_verb lib capability_verb tag verb tokens s st =
    answer
      (plain_line (codes "* CAPABILITY IMAP4rev1 IDLE")
        ∷ tagged tag (codes "OK CAPABILITY completed")
        ∷ [])
      s st
run_verb lib idle_verb tag verb tokens s st = idle tag s st
run_verb lib noop_verb tag verb tokens s st = refuse tag (codes "OK NOOP completed") s st
run_verb lib unknown_verb tag verb tokens s st =
    refuse tag (codes "BAD unknown or unsupported command") s st

unfoldable pub run_tokens : Libraries → List Str → Session → Store → Turn
unfolding run_verb verb_of
run_tokens lib [] s st = answer [] s st
run_tokens lib (tag ∷ rest) s st =
    let verb = to_ascii_uppercase (unwrap_or (get_elem? rest 0) []) in
    run_verb lib (verb_of verb (unwrap_or (get_elem? rest 1) [])) tag verb (tag ∷ rest) s st

abbrev pub is_line_end : ℕ → Bool
is_line_end c = c == 13 || c == 10

abbrev pub without_end : Str → Str
without_end l = trim_end_where is_line_end l

exists_line : Option Mailbox → List (List ℕ)
exists_line none = []
exists_line (some m) =
    plain_line (concat (codes "* " ∷ to_string (length m.messages) ∷ codes " EXISTS" ∷ [])) ∷ []

-- A line, in the modes that read lines.
unfoldable pub on_line : Libraries → Mode → Str → Session → Store → Turn
unfolding run_tokens tokenize authenticate_as xoauth2_user
on_line lib command l s st = run_tokens lib (tokenize (without_end l)) s st
on_line lib (authenticating tag) l s st =
    authenticate_as lib tag (xoauth2_user lib (without_end l) st) s st
on_line lib (acknowledging tag) l s st =
    answer (tagged tag (codes "NO AUTHENTICATE failed") ∷ []) (record s { mode = command }) st
on_line lib (idling tag name) l s st =
    if eq_ignore_ascii_case (without_end l) (codes "DONE")
    then answer (tagged tag (codes "OK IDLE terminated") ∷ []) (record s { mode = command }) st
    else answer [] s st
on_line lib (appending tag name size) l s st = answer [] s st
on_line lib closed l s st = answer [] s st

-- `read_exact` takes a literal of the announced size, and then the line end behind it.
unfoldable pub on_bytes : Libraries → Mode → List ℕ → Session → Store → Turn
unfolding appended
on_bytes lib (appending tag name size) raw s st =
    if length raw == size then appended lib tag name raw s st else answer [] s st
on_bytes lib m raw s st = answer [] s st

unfoldable pub on_delivery : Mode → Str → Session → Store → Turn
unfolding exists_line
on_delivery (idling tag name) mailbox s st =
    if str_eq mailbox name
    then answer (exists_line (get name st.mailboxes)) s st
    else answer [] s st
on_delivery m mailbox s st = answer [] s st

-- The end of the stream stands for the acknowledgement of a rejected token, too.
unfoldable pub on_end : Mode → Session → Store → Turn
on_end (acknowledging tag) s st =
    answer (tagged tag (codes "NO AUTHENTICATE failed") ∷ []) (record s { mode = closed }) st
on_end m s st = answer [] (record s { mode = closed }) st

unfoldable pub step : Libraries → Event → Session → Store → Turn
unfolding on_line on_bytes on_delivery on_end
step lib (line l) s st = on_line lib s.mode l s st
step lib (bytes raw) s st = on_bytes lib s.mode raw s st
step lib (delivered mailbox) s st = on_delivery s.mode mailbox s st
step lib end_of_stream s st = on_end s.mode s st
