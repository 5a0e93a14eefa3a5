-- ===== src/ImapServer/Fetch.antt =====
-- The commands of crates/mail-mock-server/src/imap_server.rs that read a mailbox: FETCH, UID FETCH and
-- STATUS. The numbers of messages are `u32`, by `as`.
use esmail.Prelude.{
  ℕ, zero, suc, ◌-◌, ◌%◌, min, max, Bool, false, ◌&&◌, Option, none, some, List, [], ◌∷◌, ◌++◌, Str,
  codes, join, is_none, leb, if◌then◌else◌, length, get_elem?, Bytes, as_bytes, concat, crlf,
  unwrap_or, u32_max, u32_mod, str_eq, to_ascii_uppercase, contains, split_once, drop,
}
use esmail.Prelude.Decimal.{to_string}
use esmail.MockStore.{Store, StoredMessage, Mailbox, unseen_count, get}
use esmail.ImapServer.Syntax.{
  parse_u32, parse_range, literal, envelope_fetch_response, rfc822_fetch_response,
}
use esmail.ImapServer.State.{closed, Session, Turn, tagged, answer, refuse, let_some}
use esmail.ImapServer.Access.{not_authenticated}

abbrev pub no_mailbox : Str
no_mailbox = codes "NO no mailbox selected"

abbrev pub mailbox_gone : Str
mailbox_gone = codes "NO mailbox gone"

-- `FETCH`: the responses for the messages `seq`, `seq + 1`, ..., `count` of them.
pub envelopes : List StoredMessage → ℕ → ℕ → List Bytes
envelopes ms seq zero = []
envelopes ms seq (suc count) =
    let rest = envelopes ms (suc seq) count in
    elim (get_elem? ms (seq - 1)) [
      | some msg ↦ envelope_fetch_response seq msg ∷ rest
      | none ↦ rest
    ]

unfoldable pub fetch_in : Str → ℕ × ℕ → Option Mailbox → Session → Store → Turn
unfolding envelopes
fetch_in tag range none s st = refuse tag mailbox_gone s st
fetch_in tag (start, end) (some m) s st =
    let first = max start 1 in
    let last = min end (length m.messages % u32_mod) in
    answer
      (envelopes m.messages first (suc last - first)
        ++ tagged tag (codes "OK FETCH completed") ∷ [])
      s st

unfoldable pub fetch : Str → Option Str → Session → Store → Turn
unfolding fetch_in
fetch tag set s st = let_some s.selected_mailbox (refuse tag no_mailbox s st) (λ name.
    let_some set (refuse tag (codes "BAD FETCH needs a sequence set") s st)
      (λ spec. fetch_in tag (parse_range spec) (get name st.mailboxes) s st))

-- The range of a `UID FETCH`; a single UID that is no number is `none`.
abbrev pub open_end : Str → ℕ → ℕ
open_end b start = if str_eq b (codes "*") then u32_max else unwrap_or (parse_u32 b) start

abbrev pub range_in : Str → Option (Str × Str) → Option (ℕ × ℕ)
range_in spec (some (a, b)) =
    let start = unwrap_or (parse_u32 a) 1 in some (start, open_end b start)
range_in spec none = elim (parse_u32 spec) [ some uid ↦ some (uid, uid) | none ↦ none ]

unfoldable pub uid_range : Str → Option (ℕ × ℕ)
uid_range spec = range_in spec (split_once b':' spec)

-- The messages that the test picks, with their numbers from `seq` on.
unfoldable pub numbered_where :
    (ℕ → StoredMessage → Bool) → ℕ → List StoredMessage → List (ℕ × StoredMessage)
numbered_where p seq [] = []
numbered_where p seq (m ∷ ms) =
    let rest = numbered_where p (suc seq) ms in
    if p (seq % u32_mod) m then (seq % u32_mod, m) ∷ rest else rest

abbrev pub in_range : ℕ × ℕ → ℕ → StoredMessage → Bool
in_range (start, end) seq m = leb start m.uid && leb m.uid end

abbrev pub messages_of : Option Mailbox → List StoredMessage
messages_of none = []
messages_of (some m) = m.messages

fetch_response : Bool → Bool → ℕ × StoredMessage → List Bytes
fetch_response envelope rfc822 (seq, msg) =
    if envelope
    then envelope_fetch_response seq msg ∷ []
    else if rfc822
    then rfc822_fetch_response seq msg ∷ []
    else []

pub responses : Bool → Bool → List (ℕ × StoredMessage) → List Bytes
unfolding fetch_response
responses envelope rfc822 [] = []
responses envelope rfc822 (m ∷ ms) =
    fetch_response envelope rfc822 m ++ responses envelope rfc822 ms

unfoldable pub uid_fetch_range :
    Str → Bool → Bool → Option (ℕ × ℕ) → Option Mailbox → Session → Store → Turn
unfolding responses numbered_where
uid_fetch_range tag envelope rfc822 none m s st = refuse tag (codes "BAD invalid UID") s st
uid_fetch_range tag envelope rfc822 (some range) m s st =
    answer
      (responses envelope rfc822 (numbered_where (in_range range) 1 (messages_of m))
        ++ tagged tag (codes "OK UID FETCH completed") ∷ [])
      s st

-- The injected fault drops the connection once.
unfoldable pub uid_fetch : Str → List Str → Session → Store → Turn
unfolding uid_fetch_range uid_range
uid_fetch tag tokens s st = let_some s.selected_mailbox (refuse tag no_mailbox s st) (λ name.
    let_some (get_elem? tokens 3) (refuse tag (codes "BAD UID FETCH needs a UID") s st) (λ spec.
      let items = to_ascii_uppercase (join (drop 4 tokens) (codes " ")) in
      let rfc822 = contains items (codes "RFC822") in
      if rfc822 && st.drop_next_rfc822_fetch
      then answer [] (record s { mode = closed }) (record st { drop_next_rfc822_fetch = false })
      else uid_fetch_range tag (contains items (codes "ENVELOPE")) rfc822 (uid_range spec)
          (get name st.mailboxes) s st))

unfoldable pub status_line : Str → Mailbox → Bytes
status_line name m = concat (
    codes "* STATUS "
    ∷ literal (as_bytes name)
    ∷ as_bytes (
        concat (
          codes " (MESSAGES "
          ∷ to_string (length m.messages % u32_mod)
          ∷ codes " UNSEEN "
          ∷ to_string (unseen_count m)
          ∷ codes ")"
          ∷ crlf
          ∷ []))
    ∷ [])

unfoldable pub status_in : Str → Str → Option Mailbox → Session → Store → Turn
unfolding status_line
status_in tag name none s st = refuse tag (codes "NO mailbox does not exist") s st
status_in tag name (some m) s st =
    answer (status_line name m ∷ tagged tag (codes "OK STATUS completed") ∷ []) s st

unfoldable pub status : Str → Option Str → Session → Store → Turn
unfolding status_in
status tag name s st =
    if is_none s.authenticated_user
    then refuse tag not_authenticated s st
    else let_some name (refuse tag (codes "BAD STATUS needs a mailbox") s st)
        (λ n. status_in tag n (get n st.mailboxes) s st)
