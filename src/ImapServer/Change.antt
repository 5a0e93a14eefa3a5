-- ===== src/ImapServer/Change.antt =====
-- The commands of crates/mail-mock-server/src/imap_server.rs that change a mailbox: APPEND, STORE, COPY
-- and EXPUNGE.
use esmail.Prelude.{
  ℕ, ◌-◌, max, Bool, ◌&&◌, ◌||◌, Option, none, some, List, [], ◌∷◌, ◌++◌, map, Str, codes, join,
  is_none, ◌==◌, leb, if◌then◌else◌, get_elem?, Bytes, concat, u64_mod, str_eq, to_ascii_uppercase,
  ends_with, strip_prefix, strip_suffix, split_whitespace, trim_start_where, trim_end_where, drop,
}
use esmail.Prelude.Decimal.{to_string, parse_below}
use esmail.MockStore.{
  Store, StoredMessage, Mailbox, deliver, copy_message, store_flags, with_uid, expunge, get, put,
}
use esmail.ImapServer.Syntax.{parse_range, flags_fetch_response}
use esmail.ImapServer.State.{
  Libraries, command, appending, Session, Turn, tagged, plain_line, answer, refuse, let_some,
}
use esmail.ImapServer.Access.{not_authenticated}
use esmail.ImapServer.Fetch.{no_mailbox, mailbox_gone, numbered_where, messages_of}

-- The size in `{n}`.
abbrev pub and_then {ℓ κ} : {A : Type ℓ} {B : Type κ} → Option A → (A → Option B) → Option B
and_then none f = none
and_then (some a) f = f a

literal_size : Str → Option ℕ
literal_size tok =
    and_then (strip_prefix tok (codes "{"))
      (λ t. and_then (strip_suffix t (codes "}")) (parse_below u64_mod))

unfoldable pub append_literal : Str → Str → Option ℕ → Session → Store → Turn
append_literal tag name none s st = refuse tag (codes "BAD invalid literal size") s st
append_literal tag name (some size) s st =
    answer (plain_line (codes "+ send literal data") ∷ [])
      (record s { mode = appending tag name size }) st

unfoldable pub append : Str → Option Str → Option Str → Session → Store → Turn
unfolding append_literal literal_size
append tag name size s st =
    if is_none s.authenticated_user
    then refuse tag not_authenticated s st
    else let_some name (refuse tag (codes "BAD APPEND needs a mailbox") s st) (λ n.
      let_some size (refuse tag (codes "BAD APPEND needs a literal") s st)
        (λ tok. append_literal tag n (literal_size tok) s st))

-- The literal has come.
unfoldable pub appended : Libraries → Str → Str → Bytes → Session → Store → Turn
appended lib tag name raw s st =
    let (st', uid) = deliver lib.parse_envelope name raw st in
    answer
      (tagged tag
          (concat (codes "OK [APPENDUID 1 " ∷ to_string uid ∷ codes "] APPEND completed" ∷ []))
        ∷ [])
      (record s { mode = command }) st'

abbrev pub system_flags : List Str
system_flags =
    codes "\\Seen"
    ∷ codes "\\Flagged"
    ∷ codes "\\Deleted"
    ∷ codes "\\Answered"
    ∷ codes "\\Draft"
    ∷ []

-- The flags to add and to remove.
unfoldable pub add_remove : Str → List Str → List Str × List Str
add_remove mode flags =
    if str_eq mode (codes "+FLAGS") || str_eq mode (codes "+FLAGS.SILENT")
    then (flags, [])
    else if str_eq mode (codes "-FLAGS") || str_eq mode (codes "-FLAGS.SILENT")
    then ([], flags)
    else (flags, system_flags)

-- The response for one message after `store_flags`, if it was there and the mode is not silent.
store_response : Bool → ℕ → ℕ → Mailbox × Option (List Str) → List Bytes
store_response silent seq uid (m, none) = []
store_response silent seq uid (m, some flags) =
    if silent
    then []
    else elim (with_uid uid m.messages) [ some msg ↦ flags_fetch_response seq msg ∷ [] | none ↦ [] ]

unfoldable pub store_all :
    Bool → List Str × List Str → List (ℕ × StoredMessage) → Mailbox → Mailbox × List Bytes
unfolding store_response
store_all silent (add, remove) [] m = (m, [])
store_all silent (add, remove) ((seq, msg) ∷ rest) m =
    let stored = store_flags msg.uid add remove m in
    let (m', out) = store_all silent (add, remove) rest stored.0 in
    (m', store_response silent seq msg.uid stored ++ out)

-- The messages that a STORE is about: one uid, or a range of numbers.
unfoldable pub candidates : Bool → ℕ × ℕ → Mailbox → List (ℕ × StoredMessage)
unfolding numbered_where
candidates is_uid (start, end) m =
    if is_uid
    then numbered_where (λ seq msg. msg.uid == start) 1 m.messages
    else numbered_where (λ seq msg. leb (max start 1) seq && leb seq end) 1 m.messages

abbrev pub stored_flags : List Str → List Str
stored_flags parts =
    split_whitespace
      (trim_end_where (λ c. c == b')') (trim_start_where (λ c. c == b'(') (join parts (codes " "))))

unfoldable pub store_in :
    Str → Str → Bool → Str → Str → List Str → Option Mailbox → Session → Store → Turn
unfolding store_all candidates add_remove
store_in tag name is_uid set mode parts none s st = refuse tag mailbox_gone s st
store_in tag name is_uid set mode parts (some m) s st =
    let (m', out) =
      store_all (ends_with mode (codes ".SILENT")) (add_remove mode (stored_flags parts))
        (candidates is_uid (parse_range set) m) m in
    answer (out ++ tagged tag (codes "OK STORE completed") ∷ []) s
      (record st { mailboxes = put name m' st.mailboxes })

unfoldable pub store : Str → Bool → List Str → Session → Store → Turn
unfolding store_in
store tag is_uid tokens s st = let_some s.selected_mailbox (refuse tag no_mailbox s st) (λ name.
    let args = drop (if is_uid then 3 else 2) tokens in
    let_some (get_elem? args 0) (refuse tag (codes "BAD STORE needs a set and mode") s st) (λ set.
      let_some (get_elem? args 1) (refuse tag (codes "BAD STORE needs a set and mode") s st)
        (λ mode.
          store_in tag name is_uid set (to_ascii_uppercase mode) (drop 2 args)
            (get name st.mailboxes) s st)))

abbrev pub no_such_message : Str
no_such_message = codes "NO no such message"

-- The uid that a COPY is about.
abbrev pub copied_uid : Bool → ℕ → Option Mailbox → Option ℕ
copied_uid is_uid start m =
    if is_uid
    then some start
    else elim (get_elem? (messages_of m) (start - 1)) [ some msg ↦ some msg.uid | none ↦ none ]

unfoldable pub copy_done : Str → ℕ → Store × Option ℕ → Session → Turn
copy_done tag uid (st, none) s = refuse tag no_such_message s st
copy_done tag uid (st, some new_uid) s =
    answer
      (tagged tag (
          concat (
            codes "OK [COPYUID 1 "
            ∷ to_string uid
            ∷ codes " "
            ∷ to_string new_uid
            ∷ codes "] COPY completed"
            ∷ []))
        ∷ [])
      s st

unfoldable pub copy_uid : Str → Str → Str → Option ℕ → Session → Store → Turn
unfolding copy_done
copy_uid tag name dest none s st = refuse tag no_such_message s st
copy_uid tag name dest (some uid) s st = copy_done tag uid (copy_message name uid dest st) s

unfoldable pub copy : Str → Bool → List Str → Session → Store → Turn
unfolding copy_uid
copy tag is_uid tokens s st = let_some s.selected_mailbox (refuse tag no_mailbox s st) (λ name.
    let args = drop (if is_uid then 3 else 2) tokens in
    let_some (get_elem? args 0) (refuse tag (codes "BAD COPY needs a set and destination") s st)
      (λ set.
        let_some (get_elem? args 1) (refuse tag (codes "BAD COPY needs a set and destination") s st)
          (λ dest.
            copy_uid tag name dest (copied_uid is_uid (parse_range set).0 (get name st.mailboxes)) s
              st)))

abbrev pub expunged_line : ℕ → Bytes
expunged_line uid = plain_line (codes "* 1 EXPUNGE")

unfoldable pub expunge_in : Str → Str → Option Mailbox → Session → Store → Turn
expunge_in tag name none s st = refuse tag mailbox_gone s st
expunge_in tag name (some m) s st =
    let (m', removed) = expunge m in
    answer (map expunged_line removed ++ tagged tag (codes "OK EXPUNGE completed") ∷ []) s
      (record st { mailboxes = put name m' st.mailboxes })

unfoldable pub expunge_selected : Str → Session → Store → Turn
unfolding expunge_in
expunge_selected tag s st =
    let_some s.selected_mailbox (refuse tag no_mailbox s st)
      (λ name. expunge_in tag name (get name st.mailboxes) s st)
