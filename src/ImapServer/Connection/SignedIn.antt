-- ===== src/ImapServer/Connection/SignedIn.antt =====
-- No arm of `handle_connection` in crates/mail-mock-server/src/imap_server.rs signs a user out.
use esmail.Prelude.{true, some, List, [], ◌∷◌, Str, is_some, ◌≡◌, arith}
use esmail.ImapServer.Syntax.{tokenize}
use esmail.MockStore.{Store}
use esmail.ImapServer.State.{
  Libraries, Mode, command, closed, authenticating, acknowledging, appending, idling, Session,
  Event, line, bytes, delivered, end_of_stream, Turn,
}
use esmail.ImapServer.Access.{login, authenticate, authenticate_as, list, select, select_found}
use esmail.ImapServer.Fetch.{fetch, fetch_in, uid_fetch, uid_fetch_range, status, status_in}
use esmail.ImapServer.Change.{
  append, append_literal, appended, store, store_in, copy, copy_uid, copy_done, expunge_selected,
  expunge_in,
}
use esmail.ImapServer.Connection.{
  Verb, login_verb, authenticate_verb, list_verb, select_verb, fetch_verb, uid_fetch_verb,
  append_verb, store_verb, copy_verb, expunge_verb, status_verb, logout_verb, capability_verb,
  idle_verb, noop_verb, unknown_verb, idle, without_end, run_verb, run_tokens, on_line, on_bytes,
  on_delivery, on_end, step,
}

-- In a turn, the user stays.
abbrev pub IsSigned : Turn → Type 0
IsSigned t = is_some t.session.authenticated_user ≡ true

module _ (lib : Libraries) (s : Session) (st : Store) (user : Str)
    (h : s.authenticated_user ≡ some user) where
  run_verb-IsSigned :
      (v : Verb) (tag verb : Str) (tokens : List Str)
      → IsSigned (run_verb lib v tag verb tokens s st)
  unfolding run_verb login authenticate authenticate_as list select select_found fetch fetch_in
      uid_fetch uid_fetch_range append append_literal store store_in copy copy_uid copy_done
      expunge_selected expunge_in status status_in idle
  run_verb-IsSigned login_verb tag verb tokens = ground arith
  run_verb-IsSigned authenticate_verb tag verb tokens = ground arith
  run_verb-IsSigned list_verb tag verb tokens = ground arith
  run_verb-IsSigned select_verb tag verb tokens = ground arith
  run_verb-IsSigned fetch_verb tag verb tokens = ground arith
  run_verb-IsSigned uid_fetch_verb tag verb tokens = ground arith
  run_verb-IsSigned append_verb tag verb tokens = ground arith
  run_verb-IsSigned store_verb tag verb tokens = ground arith
  run_verb-IsSigned copy_verb tag verb tokens = ground arith
  run_verb-IsSigned expunge_verb tag verb tokens = ground arith
  run_verb-IsSigned status_verb tag verb tokens = ground arith
  run_verb-IsSigned logout_verb tag verb tokens = ground arith
  run_verb-IsSigned capability_verb tag verb tokens = ground arith
  run_verb-IsSigned idle_verb tag verb tokens = ground arith
  run_verb-IsSigned noop_verb tag verb tokens = ground arith
  run_verb-IsSigned unknown_verb tag verb tokens = ground arith

run_tokens-IsSigned :
    (lib : Libraries) (tokens : List Str) (s : Session) (st : Store) (user : Str)
    → s.authenticated_user ≡ some user
    → IsSigned (run_tokens lib tokens s st)
unfolding run_tokens
run_tokens-IsSigned lib [] s st user h = ground arith
run_tokens-IsSigned lib (tag ∷ rest) s st user h =
    run_verb-IsSigned lib s st user h _ tag _ (tag ∷ rest)

on_line-IsSigned :
    (lib : Libraries) (m : Mode) (l : Str) (s : Session) (st : Store) (user : Str)
    → s.authenticated_user ≡ some user
    → IsSigned (on_line lib m l s st)
unfolding on_line authenticate_as
on_line-IsSigned lib command l s st user h =
    run_tokens-IsSigned lib (tokenize (without_end l)) s st user h
on_line-IsSigned lib closed l s st user h = ground arith
on_line-IsSigned lib (authenticating tag) l s st user h = ground arith
on_line-IsSigned lib (acknowledging tag) l s st user h = ground arith
on_line-IsSigned lib (appending tag name size) l s st user h = ground arith
on_line-IsSigned lib (idling tag name) l s st user h = ground arith

-- A user who has signed in stays signed in, whatever the event.
pub step-IsSigned :
    (lib : Libraries) (e : Event) (s : Session) (st : Store) (user : Str)
    → s.authenticated_user ≡ some user
    → IsSigned (step lib e s st)
unfolding step on_bytes on_delivery on_end appended
step-IsSigned lib (line l) s st user h = on_line-IsSigned lib s.mode l s st user h
step-IsSigned lib (bytes raw) s st user h = elim s.mode [
  | appending tag name size ↦ ground arith
  | _ ↦ ground arith
]
step-IsSigned lib (delivered mailbox) s st user h = elim s.mode [
  | idling tag name ↦ ground arith
  | _ ↦ ground arith
]
step-IsSigned lib end_of_stream s st user h = elim s.mode [
  | acknowledging tag ↦ ground arith
  | _ ↦ ground arith
]
