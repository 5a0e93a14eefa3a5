-- ===== src/ImapServer/Connection/Answers.antt =====
-- Every arm of `handle_connection` in crates/mail-mock-server/src/imap_server.rs answers its command.
use esmail.Prelude.{codes, ℕ, Bool, Option, none, some, List, [], ◌∷◌, Str, ◌≡◌}
use esmail.MockStore.{Store, Mailbox}
use esmail.ImapServer.State.{Libraries, command, Session, plain_line}
use esmail.ImapServer.Access.{login, authenticate, authenticate_as, list, select, select_found}
use esmail.ImapServer.Fetch.{
  fetch, fetch_in, uid_fetch, uid_fetch_range, status, status_in, status_line,
}
use esmail.ImapServer.Change.{
  append, append_literal, store, store_in, copy, copy_uid, copy_done, expunge_selected, expunge_in,
}
use esmail.ImapServer.Connection.{
  Verb, login_verb, authenticate_verb, list_verb, select_verb, fetch_verb, uid_fetch_verb,
  append_verb, store_verb, copy_verb, expunge_verb, status_verb, logout_verb, capability_verb,
  idle_verb, noop_verb, unknown_verb, idle, run_verb, run_tokens,
}
use esmail.ImapServer.Connection.Completion.{IsComplete, completing, answer-IsComplete}

module _ (tag : Str) where
  authenticate_as-IsComplete :
      (lib : Libraries) (user : Option Str) (s : Session) (st : Store)
      → s.mode ≡ command
      → IsComplete tag (authenticate_as lib tag user s st)
  unfolding authenticate_as
  authenticate_as-IsComplete lib none s st h = search completing
  authenticate_as-IsComplete lib (some user) s st h = search completing

  login-IsComplete :
      (user pass : Option Str) (s : Session) (st : Store)
      → s.mode ≡ command
      → IsComplete tag (login tag user pass s st)
  unfolding login
  login-IsComplete none pass s st h = search completing
  login-IsComplete (some user) none s st h = search completing
  login-IsComplete (some user) (some pass) s st h = search completing

  list-IsComplete : (s : Session) (st : Store) → s.mode ≡ command → IsComplete tag (list tag s st)
  unfolding list
  list-IsComplete s st h = search completing

  append_literal-IsComplete :
      (name : Str) (size : Option ℕ) (s : Session) (st : Store)
      → s.mode ≡ command
      → IsComplete tag (append_literal tag name size s st)
  unfolding append_literal
  append_literal-IsComplete name none s st h = search completing
  append_literal-IsComplete name (some n) s st h = search completing

  append-IsComplete :
      (name size : Option Str) (s : Session) (st : Store)
      → s.mode ≡ command
      → IsComplete tag (append tag name size s st)
  unfolding append
  append-IsComplete none size s st h = search completing
  append-IsComplete (some name) none s st h = search completing
  append-IsComplete (some name) (some tok) s st h = search (completing, append_literal-IsComplete)

  authenticate-IsComplete :
      (lib : Libraries) (mechanism inline : Option Str) (s : Session) (st : Store)
      → s.mode ≡ command
      → IsComplete tag (authenticate lib tag mechanism inline s st)
  unfolding authenticate
  authenticate-IsComplete lib mechanism none s st h = search completing
  authenticate-IsComplete lib mechanism (some inline) s st h =
      search (completing, authenticate_as-IsComplete)

  select_found-IsComplete :
      (verb name : Str) (m : Option Mailbox) (s : Session) (st : Store)
      → s.mode ≡ command
      → IsComplete tag (select_found tag verb name m s st)
  unfolding select_found
  select_found-IsComplete verb name none s st h = search completing
  select_found-IsComplete verb name (some m) s st h = search completing

  select-IsComplete :
      (verb : Str) (name : Option Str) (s : Session) (st : Store)
      → s.mode ≡ command
      → IsComplete tag (select tag verb name s st)
  unfolding select
  select-IsComplete verb none s st h = search completing
  select-IsComplete verb (some name) s st h = search (completing, select_found-IsComplete)

  fetch_in-IsComplete :
      (range : ℕ × ℕ) (m : Option Mailbox) (s : Session) (st : Store)
      → s.mode ≡ command
      → IsComplete tag (fetch_in tag range m s st)
  unfolding fetch_in
  fetch_in-IsComplete range none s st h = search completing
  fetch_in-IsComplete range (some m) s st h = search completing

  fetch-IsComplete :
      (set : Option Str) (s : Session) (st : Store)
      → s.mode ≡ command
      → IsComplete tag (fetch tag set s st)
  unfolding fetch
  fetch-IsComplete none s st h = search completing
  fetch-IsComplete (some spec) s st h = search (completing, fetch_in-IsComplete)

  uid_fetch_range-IsComplete :
      (envelope rfc822 : Bool) (range : Option (ℕ × ℕ)) (m : Option Mailbox) (s : Session)
      (st : Store)
      → s.mode ≡ command
      → IsComplete tag (uid_fetch_range tag envelope rfc822 range m s st)
  unfolding uid_fetch_range
  uid_fetch_range-IsComplete envelope rfc822 none m s st h = search completing
  uid_fetch_range-IsComplete envelope rfc822 (some r) m s st h = search completing

  uid_fetch-IsComplete :
      (tokens : List Str) (s : Session) (st : Store)
      → s.mode ≡ command
      → IsComplete tag (uid_fetch tag tokens s st)
  unfolding uid_fetch
  uid_fetch-IsComplete tokens s st h = search (completing, uid_fetch_range-IsComplete)

  store_in-IsComplete :
      (name : Str) (is_uid : Bool) (set mode : Str) (parts : List Str) (m : Option Mailbox)
      (s : Session) (st : Store)
      → s.mode ≡ command
      → IsComplete tag (store_in tag name is_uid set mode parts m s st)
  unfolding store_in
  store_in-IsComplete name is_uid set mode parts none s st h = search completing
  store_in-IsComplete name is_uid set mode parts (some m) s st h = search completing

  store-IsComplete :
      (is_uid : Bool) (tokens : List Str) (s : Session) (st : Store)
      → s.mode ≡ command
      → IsComplete tag (store tag is_uid tokens s st)
  unfolding store
  store-IsComplete is_uid tokens s st h = search (completing, store_in-IsComplete)

  copy_done-IsComplete :
      (uid : ℕ) (copied : Store × Option ℕ) (s : Session)
      → s.mode ≡ command
      → IsComplete tag (copy_done tag uid copied s)
  unfolding copy_done
  copy_done-IsComplete uid (st, none) s h = search completing
  copy_done-IsComplete uid (st, some new_uid) s h = search completing

  copy_uid-IsComplete :
      (name dest : Str) (uid : Option ℕ) (s : Session) (st : Store)
      → s.mode ≡ command
      → IsComplete tag (copy_uid tag name dest uid s st)
  unfolding copy_uid
  copy_uid-IsComplete name dest none s st h = search completing
  copy_uid-IsComplete name dest (some uid) s st h = search (completing, copy_done-IsComplete)

  copy-IsComplete :
      (is_uid : Bool) (tokens : List Str) (s : Session) (st : Store)
      → s.mode ≡ command
      → IsComplete tag (copy tag is_uid tokens s st)
  unfolding copy
  copy-IsComplete is_uid tokens s st h = search (completing, copy_uid-IsComplete)

  expunge_in-IsComplete :
      (name : Str) (m : Option Mailbox) (s : Session) (st : Store)
      → s.mode ≡ command
      → IsComplete tag (expunge_in tag name m s st)
  unfolding expunge_in
  expunge_in-IsComplete name none s st h = search completing
  expunge_in-IsComplete name (some m) s st h = search completing

  expunge_selected-IsComplete :
      (s : Session) (st : Store) → s.mode ≡ command → IsComplete tag (expunge_selected tag s st)
  unfolding expunge_selected
  expunge_selected-IsComplete s st h = search (completing, expunge_in-IsComplete)

  status_in-IsComplete :
      (name : Str) (m : Option Mailbox) (s : Session) (st : Store)
      → s.mode ≡ command
      → IsComplete tag (status_in tag name m s st)
  unfolding status_in
  status_in-IsComplete name none s st h = search completing
  status_in-IsComplete name (some m) s st h =
      answer-IsComplete tag (status_line name m ∷ []) (codes "OK STATUS completed") s st h

  status-IsComplete :
      (name : Option Str) (s : Session) (st : Store)
      → s.mode ≡ command
      → IsComplete tag (status tag name s st)
  unfolding status
  status-IsComplete none s st h = search completing
  status-IsComplete (some n) s st h = search (completing, status_in-IsComplete)

  idle-IsComplete : (s : Session) (st : Store) → s.mode ≡ command → IsComplete tag (idle tag s st)
  unfolding idle
  idle-IsComplete s st h = search completing

  run_verb-IsComplete :
      (lib : Libraries) (v : Verb) (verb : Str) (tokens : List Str) (s : Session) (st : Store)
      → s.mode ≡ command
      → IsComplete tag (run_verb lib v tag verb tokens s st)
  unfolding run_verb
  run_verb-IsComplete lib login_verb verb tokens s st h = search login-IsComplete
  run_verb-IsComplete lib authenticate_verb verb tokens s st h = search authenticate-IsComplete
  run_verb-IsComplete lib list_verb verb tokens s st h = search list-IsComplete
  run_verb-IsComplete lib select_verb verb tokens s st h = search select-IsComplete
  run_verb-IsComplete lib fetch_verb verb tokens s st h = search fetch-IsComplete
  run_verb-IsComplete lib uid_fetch_verb verb tokens s st h = search uid_fetch-IsComplete
  run_verb-IsComplete lib append_verb verb tokens s st h = search append-IsComplete
  run_verb-IsComplete lib store_verb verb tokens s st h = search store-IsComplete
  run_verb-IsComplete lib copy_verb verb tokens s st h = search copy-IsComplete
  run_verb-IsComplete lib expunge_verb verb tokens s st h = search expunge_selected-IsComplete
  run_verb-IsComplete lib status_verb verb tokens s st h = search status-IsComplete
  run_verb-IsComplete lib logout_verb verb tokens s st h = search completing
  run_verb-IsComplete lib capability_verb verb tokens s st h =
      answer-IsComplete tag (plain_line (codes "* CAPABILITY IMAP4rev1 IDLE") ∷ [])
        (codes "OK CAPABILITY completed") s st h
  run_verb-IsComplete lib idle_verb verb tokens s st h = search idle-IsComplete
  run_verb-IsComplete lib noop_verb verb tokens s st h = search completing
  run_verb-IsComplete lib unknown_verb verb tokens s st h = search completing

-- A line of tokens that a connection reads as a command is answered: the output ends with a line
-- that has the command's tag, unless the connection closes or goes on to wait for a response, a
-- literal or DONE, and then it waits with that same tag.
pub run_tokens-IsComplete :
    (lib : Libraries) (tag : Str) (rest : List Str) (s : Session) (st : Store)
    → s.mode ≡ command
    → IsComplete tag (run_tokens lib (tag ∷ rest) s st)
unfolding run_tokens
run_tokens-IsComplete lib tag rest s st h = search run_verb-IsComplete
