-- ===== src/MockStore.antt =====
-- crates/mail-mock-server/src/store.rs: the mailboxes of the mock mail server. A HashMap is an
-- association list with one entry per key, and the broadcast channel is the list of the names sent.
pub mod Flags
pub mod Uids
use esmail.Prelude.{
  ℕ, Bool, true, false, not, Option, none, some, List, [], ◌∷◌, ◌++◌, map, Str, codes, is_empty,
  ◌==◌, ◌&&◌, ◌||◌, if◌then◌else◌, str_eq, eq_ignore_ascii_case, strip_prefix, split, keep, any,
  find, length, add_u32, u32_mod, ◌%◌,
}
use esmail.Folders.{str_leb}

-- A display name, the local part and the host.
pub record Address : Type 0 where
  pub display_name : Str
  pub mailbox : Str
  pub host : Str

pub record Envelope : Type 0 where
  pub date : Str
  pub subject : Str
  pub from : Option Address
  pub to : Option Address
  pub message_id : Str

pub record StoredMessage : Type 0 where
  pub uid : ℕ  -- u32
  pub raw : List ℕ  -- bytes
  pub envelope : Envelope
  pub flags : List Str

pub record Mailbox : Type 0 where
  pub name : Str
  pub messages : List StoredMessage
  pub uid_validity : ℕ  -- u32
  pub uid_next : ℕ  -- u32

unfoldable pub new_mailbox : Str → ℕ → Mailbox
new_mailbox name uid_validity = record {
  name = name;
  messages = [];
  uid_validity = uid_validity;
  uid_next = 1;
}

-- The mailbox with the message, and the message's uid.
unfoldable pub append : List ℕ → Envelope → Mailbox → Mailbox × ℕ
append raw envelope m = (
  record m {
    uid_next = add_u32 m.uid_next 1;
    messages =
        m.messages ++ record { uid = m.uid_next; raw = raw; envelope = envelope; flags = [] } ∷ [];
  },
  m.uid_next,
)

abbrev pub is_unseen : StoredMessage → Bool
is_unseen m = not (any (λ f. str_eq f (codes "\\Seen")) m.flags)

unfoldable pub unseen_count : Mailbox → ℕ
unseen_count m = length (keep is_unseen m.messages) % u32_mod

-- Whether a flag is in the list, in any case.
abbrev pub has_flag : Str → List Str → Bool
has_flag flag flags = any (λ f. eq_ignore_ascii_case f flag) flags

unfoldable pub add_flags : List Str → List Str → List Str
add_flags [] flags = flags
add_flags (flag ∷ add) flags =
    let kept = add_flags add flags in
    let pushed = add_flags add (flags ++ flag ∷ []) in if has_flag flag flags then kept else pushed

-- `retain` with the flags to remove, then the loop over the flags to add.
unfoldable pub changed_flags : List Str → List Str → List Str → List Str
unfolding add_flags
changed_flags add remove flags =
    add_flags add (keep (λ f. not (any (λ r. eq_ignore_ascii_case r f) remove)) flags)

-- The first message with the uid is changed.
unfoldable pub update_flags : (List Str → List Str) → ℕ → List StoredMessage → List StoredMessage
update_flags change uid [] = []
update_flags change uid (m ∷ ms) =
    let later = update_flags change uid ms in
    if m.uid == uid then record m { flags = change m.flags } ∷ ms else m ∷ later

unfoldable pub with_uid : ℕ → List StoredMessage → Option StoredMessage
with_uid uid ms = find (λ (m : StoredMessage). m.uid == uid) ms

unfoldable pub store_flags : ℕ → List Str → List Str → Mailbox → Mailbox × Option (List Str)
unfolding changed_flags update_flags with_uid
store_flags uid add remove m = elim (with_uid uid m.messages) [
  | none ↦ (m, none)
  | some msg ↦ (
    record m { messages = update_flags (changed_flags add remove) uid m.messages },
    some (changed_flags add remove msg.flags),
  )
]

abbrev pub is_deleted : StoredMessage → Bool
is_deleted m = any (λ f. str_eq f (codes "\\Deleted")) m.flags

abbrev pub uid_of : StoredMessage → ℕ
uid_of m = m.uid

unfoldable pub expunge : Mailbox → Mailbox × List ℕ
expunge m = (
  record m { messages = keep (λ msg. not (is_deleted msg)) m.messages },
  map uid_of (keep is_deleted m.messages),
)

-- A map from names.
abbrev pub get {ℓ} : {A : Type ℓ} → Str → List (Str × A) → Option A
get key [] = none
get key (e ∷ es) = let later = get key es in if str_eq e.0 key then some e.1 else later

abbrev pub put {ℓ} : {A : Type ℓ} → Str → A → List (Str × A) → List (Str × A)
put key a [] = (key, a) ∷ []
put key a (e ∷ es) = let later = put key a es in if str_eq e.0 key then (key, a) ∷ es else e ∷ later

pub record Store : Type 0 where
  pub users : List (Str × Str)
  pub oauth_tokens : List (Str × Str)
  pub mailboxes : List (Str × Mailbox)
  pub notify : List Str
  pub drop_next_rfc822_fetch : Bool

new : Store
new = record {
  users = [];
  oauth_tokens = [];
  mailboxes = [];
  notify = [];
  drop_next_rfc822_fetch = false;
}

-- `entry(name).or_insert_with(...)`.
unfoldable pub or_insert : Str → List (Str × Mailbox) → Mailbox
unfolding new_mailbox
or_insert name mailboxes = elim (get name mailboxes) [ some m ↦ m | none ↦ new_mailbox name 1 ]

add_mailboxes : List Str → List (Str × Mailbox) → List (Str × Mailbox)
unfolding or_insert
add_mailboxes [] mailboxes = mailboxes
add_mailboxes (name ∷ names) mailboxes =
    add_mailboxes names (put name (or_insert name mailboxes) mailboxes)

add_user : Str → Str → Store → Store
unfolding add_mailboxes
add_user username password s = record s {
  users = put username password s.users;
  mailboxes =
      add_mailboxes (codes "INBOX" ∷ codes "Sent" ∷ codes "Drafts" ∷ codes "Trash" ∷ [])
        s.mailboxes;
}

-- `is_some_and(|v| v == expected)`.
abbrev pub holds : Option Str → Str → Bool
holds none expected = false
holds (some v) expected = str_eq v expected

unfoldable pub check_login : Str → Str → Store → Bool
check_login username password s = holds (get username s.users) password

add_oauth_token : Str → Str → Store → Store
add_oauth_token username token s = record s { oauth_tokens = put username token s.oauth_tokens }

-- The loop over the fields: the last user and the last token.
fields : List Str → Option Str × Option Str → Option Str × Option Str
fields [] found = found
fields (field ∷ rest) found = elim (strip_prefix field (codes "user=")) [
  | some v ↦ fields rest (some v, found.1)
  | none ↦ elim (strip_prefix field (codes "auth=Bearer ")) [
    | some v ↦ fields rest (found.0, some v)
    | none ↦ fields rest found
  ]
]

accepted : Option Str × Option Str → Store → Option Str
accepted (none, token) s = none
accepted (some user, none) s = none
accepted (some user, some token) s =
    if holds (get user s.oauth_tokens) token then some user else none

-- `from_utf8` is the standard library's decoder.
unfoldable pub check_xoauth2 : (List ℕ → Option Str) → List ℕ → Store → Option Str
unfolding fields accepted
check_xoauth2 from_utf8 payload s = elim (from_utf8 payload) [
  | none ↦ none
  | some text ↦ accepted (fields (split 1 text) (none, none)) s
]

insert_name : Str → List Str → List Str
insert_name n [] = n ∷ []
insert_name n (m ∷ ms) =
    let later = insert_name n ms in if str_leb n m then n ∷ m ∷ ms else m ∷ later

sort : List Str → List Str
unfolding insert_name
sort [] = []
sort (n ∷ ns) = insert_name n (sort ns)

abbrev pub key_in {ℓ} : {A : Type ℓ} → Str × A → Str
key_in e = e.0

unfoldable pub mailbox_names : Store → List Str
unfolding sort
mailbox_names s = sort (map key_in s.mailboxes)

-- The message lands in the mailbox, which is made if it is missing, and its name is broadcast.
-- `parse_envelope` rests on the mail parser.
unfoldable pub deliver : (List ℕ → Envelope) → Str → List ℕ → Store → Store × ℕ
unfolding or_insert append
deliver parse_envelope recipient raw s =
    let (m, uid) = append raw (parse_envelope raw) (or_insert recipient s.mailboxes) in
    (record s { mailboxes = put recipient m s.mailboxes; notify = s.notify ++ recipient ∷ [] }, uid)

-- The copy has its own uid and the flags of the message.
unfoldable pub add_copy : StoredMessage → Mailbox → Mailbox
add_copy msg m = record m {
  uid_next = add_u32 m.uid_next 1;
  messages = m.messages ++ record msg { uid = m.uid_next } ∷ [];
}

unfoldable pub copy_message : Str → ℕ → Str → Store → Store × Option ℕ
unfolding or_insert add_copy with_uid
copy_message src uid dest s = elim (get src s.mailboxes) [
  | none ↦ (s, none)
  | some from ↦ elim (with_uid uid from.messages) [
    | none ↦ (s, none)
    | some msg ↦
        let m = or_insert dest s.mailboxes in
        (
          record s {
            mailboxes = put dest (add_copy msg m) s.mailboxes;
            notify = s.notify ++ dest ∷ [];
          },
          some m.uid_next,
        )
  ]
]
