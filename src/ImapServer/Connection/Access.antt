-- ===== src/ImapServer/Connection/Access.antt =====
-- What a connection of the mock IMAP server can do before it has signed in: the guards of the arms of
-- `handle_connection` in crates/mail-mock-server/src/imap_server.rs.
use esmail.Prelude.{
  ℕ, ap₂, Option-cases, inl, inr, true, Option, none, some, List, [], ◌∷◌, Str, is_some, get_elem?,
  ◌≡◌, refl, sym, arith,
}
use mathlib.Core.Path.{subst}
use esmail.ImapServer.Syntax.{tokenize}
use esmail.MockStore.{Store}
use esmail.ImapServer.State.{
  Libraries, Mode, command, closed, authenticating, acknowledging, appending, idling, Session,
  Event, line, bytes, delivered, end_of_stream, Turn, start,
}
use esmail.ImapServer.Access.{login, authenticate, authenticate_as, xoauth2_user, list, select}
use esmail.ImapServer.Fetch.{fetch, uid_fetch, status}
use esmail.ImapServer.Change.{append, store, copy, expunge_selected}
use esmail.ImapServer.Connection.{
  Verb, login_verb, authenticate_verb, list_verb, select_verb, fetch_verb, uid_fetch_verb,
  append_verb, store_verb, copy_verb, expunge_verb, status_verb, logout_verb, capability_verb,
  idle_verb, noop_verb, unknown_verb, idle, without_end, run_verb, run_tokens, on_line, on_bytes,
  on_delivery, on_end, step,
}
use esmail.ImapServer.Connection.SignedIn.{step-IsSigned}

-- The modes in which a connection that has not signed in can be.
abbrev pub IsOpenMode : Mode → Type 0
IsOpenMode command = Unit
IsOpenMode closed = Unit
IsOpenMode (authenticating tag) = Unit
IsOpenMode (acknowledging tag) = Unit
IsOpenMode (appending tag name size) = ⊥
IsOpenMode (idling tag name) = ⊥

abbrev GuardedBy : Option Str → Option Str → Mode → Type 0
GuardedBy none selected m = (selected ≡ none) × IsOpenMode m
GuardedBy (some user) selected m = Unit

-- Without a user, no mailbox is selected, no literal is awaited and the connection does not idle.
abbrev pub IsGuarded : Session → Type 0
IsGuarded s = GuardedBy s.authenticated_user s.selected_mailbox s.mode

-- The sessions that events lead to, whatever the store is at each of them.
pub data Reach (lib : Libraries) : Session → Type 0 where
  connected : Reach lib start
  next : (s : Session) (e : Event) (st : Store) → Reach lib s → Reach lib (step lib e s st).session

-- A turn of a session that had no user: it is guarded and changes no mailbox.
abbrev IsHarmless : Store → Turn → Type 0
IsHarmless st t = IsGuarded t.session × (t.store ≡ st)

abbrev outside : Mode → Session
outside m = record { authenticated_user = none; selected_mailbox = none; mode = m }

module _ (lib : Libraries) (st : Store) (m : Mode) (h : IsOpenMode m) where
  login-IsHarmless :
      (tag : Str) (user pass : Option Str) → IsHarmless st (login tag user pass (outside m) st)
  unfolding login
  login-IsHarmless tag none pass = ground arith
  login-IsHarmless tag (some user) none = ground arith
  login-IsHarmless tag (some user) (some pass) = ground arith

  authenticate_as-IsHarmless :
      (tag : Str) (user : Option Str) → IsHarmless st (authenticate_as lib tag user (outside m) st)
  unfolding authenticate_as
  authenticate_as-IsHarmless tag none = ground arith
  authenticate_as-IsHarmless tag (some user) = ground arith

  authenticate-IsHarmless :
      (tag : Str) (mechanism inline : Option Str)
      → IsHarmless st (authenticate lib tag mechanism inline (outside m) st)
  unfolding authenticate
  authenticate-IsHarmless tag mechanism none = ground arith
  authenticate-IsHarmless tag mechanism (some inline) =
      ground (arith, authenticate_as-IsHarmless tag (xoauth2_user lib inline st))

  run_verb-IsHarmless :
      (v : Verb) (tag verb : Str) (tokens : List Str)
      → IsHarmless st (run_verb lib v tag verb tokens (outside m) st)
  unfolding run_verb list select fetch uid_fetch append store copy expunge_selected status idle
  run_verb-IsHarmless login_verb tag verb tokens =
      login-IsHarmless tag (get_elem? tokens 2) (get_elem? tokens 3)
  run_verb-IsHarmless authenticate_verb tag verb tokens =
      authenticate-IsHarmless tag (get_elem? tokens 2) (get_elem? tokens 3)
  run_verb-IsHarmless list_verb tag verb tokens = ((refl, h), refl)
  run_verb-IsHarmless select_verb tag verb tokens = ((refl, h), refl)
  run_verb-IsHarmless fetch_verb tag verb tokens = ((refl, h), refl)
  run_verb-IsHarmless uid_fetch_verb tag verb tokens = ((refl, h), refl)
  run_verb-IsHarmless append_verb tag verb tokens = ((refl, h), refl)
  run_verb-IsHarmless store_verb tag verb tokens = ((refl, h), refl)
  run_verb-IsHarmless copy_verb tag verb tokens = ((refl, h), refl)
  run_verb-IsHarmless expunge_verb tag verb tokens = ((refl, h), refl)
  run_verb-IsHarmless status_verb tag verb tokens = ((refl, h), refl)
  run_verb-IsHarmless logout_verb tag verb tokens = ((refl, tt), refl)
  run_verb-IsHarmless capability_verb tag verb tokens = ((refl, h), refl)
  run_verb-IsHarmless idle_verb tag verb tokens = ((refl, h), refl)
  run_verb-IsHarmless noop_verb tag verb tokens = ((refl, h), refl)
  run_verb-IsHarmless unknown_verb tag verb tokens = ((refl, h), refl)

  run_tokens-IsHarmless : (tokens : List Str) → IsHarmless st (run_tokens lib tokens (outside m) st)
  unfolding run_tokens
  run_tokens-IsHarmless [] = ((refl, h), refl)
  run_tokens-IsHarmless (tag ∷ rest) = run_verb-IsHarmless _ tag _ (tag ∷ rest)

  on_delivery-IsHarmless : (mailbox : Str) → IsHarmless st (on_delivery m mailbox (outside m) st)
  unfolding on_delivery
  on_delivery-IsHarmless mailbox = elim m [ idling tag name ↦ ground arith | _ ↦ ground arith ]

on_bytes-IsHarmless :
    (lib : Libraries) (raw : List ℕ) (m : Mode) (st : Store)
    → IsOpenMode m
    → IsHarmless st (on_bytes lib m raw (outside m) st)
unfolding on_bytes
on_bytes-IsHarmless lib raw command st h = ground arith
on_bytes-IsHarmless lib raw closed st h = ground arith
on_bytes-IsHarmless lib raw (authenticating tag) st h = ground arith
on_bytes-IsHarmless lib raw (acknowledging tag) st h = ground arith
on_bytes-IsHarmless lib raw (appending tag name size) st h = elim h [ ]
on_bytes-IsHarmless lib raw (idling tag name) st h = ground arith

step-IsHarmless :
    (lib : Libraries) (e : Event) (m : Mode) (st : Store)
    → IsOpenMode m
    → IsHarmless st (step lib e (outside m) st)
unfolding step on_line on_end
step-IsHarmless lib (line l) command st h =
    run_tokens-IsHarmless lib st command h (tokenize (without_end l))
step-IsHarmless lib (line l) closed st h = ground arith
step-IsHarmless lib (line l) (authenticating tag) st h =
    authenticate_as-IsHarmless lib st (authenticating tag) h tag _
step-IsHarmless lib (line l) (acknowledging tag) st h = ground arith
step-IsHarmless lib (line l) (appending tag name size) st h = ground arith
step-IsHarmless lib (line l) (idling tag name) st h = ground arith
step-IsHarmless lib (bytes raw) m st h = on_bytes-IsHarmless lib raw m st h
step-IsHarmless lib (delivered mailbox) m st h = on_delivery-IsHarmless lib st m h mailbox
step-IsHarmless lib end_of_stream m st h = elim m [
  | acknowledging tag ↦ ground arith
  | _ ↦ ground arith
]

guarded-fields :
    (user selected : Option Str) (m : Mode)
    → GuardedBy user selected m
    → user ≡ none
    → (selected ≡ none) × IsOpenMode m
guarded-fields none selected m h e = h
guarded-fields (some u) selected m h e = cc

guarded-outside :
    (s : Session) → s.authenticated_user ≡ none → s.selected_mailbox ≡ none → outside s.mode ≡ s
guarded-outside s e f =
    ap₂
      (λ user selected. record {
        authenticated_user = user;
        selected_mailbox = selected;
        mode = s.mode;
      })
      (sym e) (sym f)

guarded-step :
    (lib : Libraries) (e : Event) (s : Session) (st : Store)
    → IsGuarded s
    → s.authenticated_user ≡ none
    → IsHarmless st (step lib e s st)
guarded-step lib e s st h none_yet =
    let (no_mailbox, allowed) =
      guarded-fields s.authenticated_user s.selected_mailbox s.mode h none_yet in
    subst (λ (t : Session). IsHarmless st (step lib e t st)) (guarded-outside s none_yet no_mailbox)
      (step-IsHarmless lib e s.mode st allowed)

signed-fields :
    (user selected : Option Str) (m : Mode) → is_some user ≡ true → GuardedBy user selected m
signed-fields none selected m h = cc
signed-fields (some u) selected m h = tt

-- However a client and the store behave, a connection without a user has no selected mailbox, awaits
-- no literal of an APPEND and does not idle.
pub Reach-IsGuarded : (lib : Libraries) (s : Session) → Reach lib s → IsGuarded s
Reach-IsGuarded lib _ connected = (refl, tt)
Reach-IsGuarded lib _ (next s e st r) = elim (Option-cases s.authenticated_user) [
  | inl no_user ↦ (guarded-step lib e s st (Reach-IsGuarded lib s r) no_user).0
  | inr (user, signed) ↦ signed-fields _ _ _ (step-IsSigned lib e s st user signed)
]

-- Before it has signed in, no event of a connection changes the store.
pub Reach-store :
    (lib : Libraries) (e : Event) (s : Session) (st : Store)
    → Reach lib s
    → s.authenticated_user ≡ none
    → (step lib e s st).store ≡ st
Reach-store lib e s st r none_yet = (guarded-step lib e s st (Reach-IsGuarded lib s r) none_yet).1
