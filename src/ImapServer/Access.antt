-- ===== src/ImapServer/Access.antt =====
-- The commands of crates/mail-mock-server/src/imap_server.rs that sign in and choose a mailbox.
use esmail.Prelude.{
  Bool, false, ◌||◌, Option, none, some, List, [], ◌∷◌, ◌++◌, map, Str, codes, is_none,
  if◌then◌else◌, length, Bytes, as_bytes, concat, crlf, str_eq, eq_ignore_ascii_case,
  to_ascii_lowercase,
}
use esmail.Prelude.Decimal.{to_string}
use esmail.MockStore.{Store, Mailbox, check_login, check_xoauth2, mailbox_names, get}
use esmail.ImapServer.Syntax.{literal}
use esmail.ImapServer.State.{
  Libraries, command, authenticating, acknowledging, Session, Turn, tagged, plain_line, answer,
  refuse, let_some,
}

unfoldable pub login : Str → Option Str → Option Str → Session → Store → Turn
login tag none pass s st = refuse tag (codes "BAD LOGIN needs two arguments") s st
login tag (some user) none s st = refuse tag (codes "BAD LOGIN needs two arguments") s st
login tag (some user) (some pass) s st =
    if check_login user pass st
    then answer (tagged tag (codes "OK LOGIN completed") ∷ [])
        (record s { authenticated_user = some user }) st
    else refuse tag (codes "NO LOGIN failed") s st

abbrev pub denied : Str
denied = codes "{\"status\":\"401\",\"schemes\":\"Bearer\",\"scope\":\"https://mail.google.com/\"}"

-- The user that an initial response authenticates as.
unfoldable pub xoauth2_user : Libraries → Str → Store → Option Str
xoauth2_user lib initial st = elim (lib.base64_decode initial) [
  | none ↦ none
  | some payload ↦ check_xoauth2 lib.from_utf8 payload st
]

unfoldable pub authenticate_as : Libraries → Str → Option Str → Session → Store → Turn
authenticate_as lib tag (some user) s st =
    answer (tagged tag (codes "OK AUTHENTICATE completed") ∷ [])
      (record s { authenticated_user = some user; mode = command }) st
authenticate_as lib tag none s st =
    answer (plain_line (concat (codes "+ " ∷ lib.base64_encode denied ∷ [])) ∷ [])
      (record s { mode = acknowledging tag }) st

abbrev pub is_xoauth2 : Option Str → Bool
is_xoauth2 none = false
is_xoauth2 (some m) = eq_ignore_ascii_case m (codes "XOAUTH2")

unfoldable pub authenticate : Libraries → Str → Option Str → Option Str → Session → Store → Turn
unfolding xoauth2_user authenticate_as
authenticate lib tag mechanism none s st =
    if is_xoauth2 mechanism
    then answer (plain_line (codes "+ ") ∷ []) (record s { mode = authenticating tag }) st
    else refuse tag (codes "NO unsupported authentication mechanism") s st
authenticate lib tag mechanism (some inline) s st =
    if is_xoauth2 mechanism
    then authenticate_as lib tag (xoauth2_user lib inline st) s st
    else refuse tag (codes "NO unsupported authentication mechanism") s st

special_use : Str → Str
special_use name =
    let n = to_ascii_lowercase name in
    if str_eq n (codes "sent")
    then codes " \\Sent"
    else if str_eq n (codes "drafts")
    then codes " \\Drafts"
    else if str_eq n (codes "trash")
    then codes " \\Trash"
    else if str_eq n (codes "archive")
    then codes " \\Archive"
    else if str_eq n (codes "junk") || str_eq n (codes "spam")
    then codes " \\Junk"
    else []

list_response : Str → Bytes
unfolding special_use
list_response name = concat (
    as_bytes (concat (codes "* LIST (\\HasNoChildren" ∷ special_use name ∷ codes ") \"/\" " ∷ []))
    ∷ literal (as_bytes name)
    ∷ crlf
    ∷ [])

abbrev pub not_authenticated : Str
not_authenticated = codes "NO not authenticated"

unfoldable pub list : Str → Session → Store → Turn
unfolding list_response
list tag s st =
    if is_none s.authenticated_user
    then refuse tag not_authenticated s st
    else answer
        (map list_response (mailbox_names st) ++ tagged tag (codes "OK LIST completed") ∷ []) s st

unfoldable pub selected_lines : Mailbox → List Bytes
selected_lines m =
    plain_line (codes "* FLAGS (\\Answered \\Flagged \\Deleted \\Seen \\Draft)")
    ∷ plain_line (codes "* OK [PERMANENTFLAGS ()] Flags permitted.")
    ∷ plain_line (concat (codes "* " ∷ to_string (length m.messages) ∷ codes " EXISTS" ∷ []))
    ∷ plain_line (codes "* 0 RECENT")
    ∷ plain_line
        (concat (codes "* OK [UIDVALIDITY " ∷ to_string m.uid_validity ∷ codes "] UIDs valid" ∷ []))
    ∷ plain_line
        (concat (codes "* OK [UIDNEXT " ∷ to_string m.uid_next ∷ codes "] Predicted next UID" ∷ []))
    ∷ []

abbrev pub selected_text : Str → Str
selected_text verb = concat (
    codes "OK"
    ∷ (if str_eq verb (codes "EXAMINE") then codes " [READ-ONLY]" else [])
    ∷ codes " "
    ∷ verb
    ∷ codes " completed"
    ∷ [])

unfoldable pub select_found : Str → Str → Str → Option Mailbox → Session → Store → Turn
unfolding selected_lines
select_found tag verb name none s st = refuse tag (codes "NO mailbox does not exist") s st
select_found tag verb name (some m) s st =
    answer (selected_lines m ++ tagged tag (selected_text verb) ∷ [])
      (record s { selected_mailbox = some name }) st

unfoldable pub select : Str → Str → Option Str → Session → Store → Turn
unfolding select_found
select tag verb name s st =
    if is_none s.authenticated_user
    then refuse tag not_authenticated s st
    else let_some name
        (refuse tag (concat (codes "BAD " ∷ verb ∷ codes " needs a mailbox" ∷ [])) s st)
        (λ n. select_found tag verb n (get n st.mailboxes) s st)
