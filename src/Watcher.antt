-- ===== src/Watcher.antt =====
-- crates/esmail/src/watcher.rs: the accounts that the background listener watches. The BTreeMap is an
-- association list in the order of the ids; of a session, the parameters it was started with and
-- the commands offered to its queue are kept.
pub mod Accounts
pub mod States
use esmail.Prelude.{
  ℕ, Bool, true, false, not, ◌&&◌, ◌||◌, Option, none, some, List, [], ◌∷◌, ◌++◌, map, Str, codes,
  ◌==◌, if◌then◌else◌, str_eq, any, keep, add_u32, unwrap_or,
}
use esmail.Prelude.Int.{ℤ}
use esmail.Folders.{str_leb}
use esmail.Config.{AccountConfig, Auth, config_eq}

pub record SessionParams : Type 0 where
  pub id : Str
  pub label : Str
  pub host : Str
  pub port : ℕ  -- u16
  pub username : Str
  pub auth : Auth
  pub watch_mailbox : Str

-- A command for the session: the unread counts of the mailboxes.
pub data ImapCommand : Type 0 where
  fetch_unread_counts : List Str → ImapCommand

pub record AccountSession : Type 0 where
  pub params : SessionParams
  pub offered : List ImapCommand

pub data AccountState : Type 0 where
  connecting connected watching : AccountState
  failed : Str → AccountState

abbrev pub is_up : AccountState → Bool
is_up connecting = false
is_up connected = true
is_up watching = true
is_up (failed reason) = false

pub data Change : Type 0 where
  state_changed : Str → AccountState → Change  -- account, state
  unread_changed : Str → ℕ → ℕ → Change  -- account, unread, total

pub record Watched : Type 0 where
  pub config : AccountConfig
  pub watch_mailbox : Str
  pub session : AccountSession
  pub state : AccountState
  pub unread : ℕ  -- u32

abbrev pub Accounts : Type 0
Accounts = List (Str × Watched)

-- The events of a session that `handle` tells apart; `other_event` stands for the rest.
pub data ImapEvent : Type 0 where
  connected_event disconnected_event other_event : ImapEvent
  error_event : Str → ImapEvent
  mailbox_polled : Str → ImapEvent
  unread_counts : List (Str × ℕ) → ImapEvent

abbrev pub get {ℓ} : {A : Type ℓ} → Str → List (Str × A) → Option A
get key [] = none
get key (e ∷ es) = let later = get key es in if str_eq e.0 key then some e.1 else later

-- Before the first key that is greater.
abbrev pub insert {ℓ} : {A : Type ℓ} → Str → A → List (Str × A) → List (Str × A)
insert key a [] = (key, a) ∷ []
insert key a (e ∷ es) =
    let later = insert key a es in
    if str_eq e.0 key
    then (key, a) ∷ es
    else if str_leb key e.0
    then (key, a) ∷ e ∷ es
    else e ∷ later

abbrev pub remove {ℓ} : {A : Type ℓ} → Str → List (Str × A) → List (Str × A)
remove key es = keep (λ e. not (str_eq e.0 key)) es

abbrev pub default_watch_mailbox : Str
default_watch_mailbox = codes "INBOX"

-- The entry of an account whose session has just been started.
unfoldable pub started : AccountConfig → Auth → Watched
started config auth =
    let watch_mailbox = unwrap_or config.watch_mailbox default_watch_mailbox in
    record {
      config = config;
      watch_mailbox = watch_mailbox;
      session = record {
        params = record {
          id = config.id;
          label = config.display_name;
          host = config.imap_host;
          port = config.imap_port;
          username = config.username;
          auth = auth;
          watch_mailbox = watch_mailbox;
        };
        offered = [];
      };
      state = connecting;
      unread = 0;
    }

unfoldable pub restart_account : AccountConfig → Auth → Accounts → Accounts
unfolding started
restart_account config auth accounts =
    insert config.id (started config auth) (remove config.id accounts)

abbrev pub is_unchanged : AccountConfig → Option Watched → Bool
is_unchanged config none = false
is_unchanged config (some w) = config_eq w.config config

-- The loop of `apply_accounts`.
unfoldable pub start_all : List (AccountConfig × Auth) → Accounts → Accounts
unfolding restart_account
start_all [] accounts = accounts
start_all ((config, auth) ∷ desired) accounts = start_all desired (
    if is_unchanged config (get config.id accounts)
    then accounts
    else restart_account config auth accounts)

abbrev pub is_wanted : List (AccountConfig × Auth) → Str → Bool
is_wanted desired id = any (λ (d : AccountConfig × Auth). str_eq d.0.id id) desired

unfoldable pub apply_accounts : List (AccountConfig × Auth) → Accounts → Accounts
unfolding start_all
apply_accounts desired accounts =
    start_all desired (keep (λ (e : Str × Watched). is_wanted desired e.0) accounts)

abbrev pub id_of : Str × Watched → Str
id_of e = e.0

account_ids : Accounts → List Str
account_ids accounts = map id_of accounts

abbrev pub state_in : Option Watched → Option AccountState
state_in none = none
state_in (some w) = some w.state

unfoldable pub state : Str → Accounts → Option AccountState
state account accounts = state_in (get account accounts)

unfoldable pub total_unread : Accounts → ℕ
total_unread [] = 0
total_unread (e ∷ es) = add_u32 e.1.unread (total_unread es)

-- The command is offered; the queue may be full.
unfoldable pub request_unread : Watched → Watched
request_unread w = record w {
  session = record w.session {
    offered = w.session.offered ++ fetch_unread_counts (w.watch_mailbox ∷ []) ∷ [];
  };
}

-- What `handle` does with the account's entry and the change that it reports; the unread counts are
-- below, since their change needs the total of all accounts.
unfoldable pub handle_event : Str → ImapEvent → Watched → Watched × Option Change
unfolding request_unread
handle_event account connected_event w =
    (request_unread (record w { state = connected }), some (state_changed account connected))
handle_event account disconnected_event w =
    (record w { state = connecting }, some (state_changed account connecting))
handle_event account (error_event reason) w =
    if is_up w.state
    then (w, none)
    else (record w { state = failed reason }, some (state_changed account (failed reason)))
handle_event account (mailbox_polled mailbox) w =
    if str_eq mailbox w.watch_mailbox
    then elim w.state [
      | connected ↦
          (record (request_unread w) { state = watching }, some (state_changed account watching))
      | s ↦ (request_unread w, none)
    ]
    else (w, none)
handle_event account (unread_counts counts) w = (w, none)
handle_event account other_event w = (w, none)

-- The new unread count, if there is one for the watched mailbox and it differs.
unfoldable pub new_unread : List (Str × ℕ) → Watched → Option ℕ
new_unread counts w = elim (get w.watch_mailbox counts) [
  | none ↦ none
  | some unread ↦ if unread == w.unread then none else some unread
]

unfoldable pub handle_counts : Str → List (Str × ℕ) → Watched → Accounts → Accounts × Option Change
unfolding new_unread total_unread
handle_counts account counts w accounts = elim (new_unread counts w) [
  | none ↦ (accounts, none)
  | some unread ↦
      let updated = insert account (record w { unread = unread }) accounts in
      (updated, some (unread_changed account unread (total_unread updated)))
]

abbrev pub with_entry : Str → Watched × Option Change → Accounts → Accounts × Option Change
with_entry account (w, change) accounts = (insert account w accounts, change)

-- An event of a session that was replaced or removed finds no entry.
unfoldable pub handle : Str → ImapEvent → Accounts → Accounts × Option Change
unfolding handle_event handle_counts
handle account event accounts = elim (get account accounts) [
  | none ↦ (accounts, none)
  | some w ↦ elim event [
    | unread_counts counts ↦ handle_counts account counts w accounts
    | e ↦ with_entry account (handle_event account e w) accounts
  ]
]
