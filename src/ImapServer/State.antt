-- ===== src/ImapServer/State.antt =====
-- The state of one connection of the mock IMAP server, what happens to it, and what a turn gives.
use esmail.Prelude.{ℕ, Option, none, some, List, [], ◌∷◌, Str, codes, Bytes, as_bytes, concat, crlf}
use esmail.MockStore.{Store, Envelope}

pub record Libraries : Type 0 where
  pub base64_decode : Str → Option Bytes
  pub base64_encode : Bytes → Str
  pub from_utf8 : Bytes → Option Str
  pub parse_envelope : Bytes → Envelope

-- What the connection waits for: a command, the response to an empty continuation of AUTHENTICATE
-- with its tag, the client's acknowledgement of a rejected token, the literal of an APPEND with its
-- mailbox and size, or DONE; a closed connection waits for nothing.
pub data Mode : Type 0 where
  command closed : Mode
  authenticating acknowledging : Str → Mode
  appending : Str → Str → ℕ → Mode
  idling : Str → Str → Mode

pub record Session : Type 0 where
  pub authenticated_user : Option Str
  pub selected_mailbox : Option Str
  pub mode : Mode

pub data Event : Type 0 where
  line : Str → Event
  bytes : Bytes → Event
  delivered : Str → Event
  end_of_stream : Event

-- What a turn writes, and the session and the store after it.
pub record Turn : Type 0 where
  pub out : List Bytes
  pub session : Session
  pub store : Store

abbrev pub start : Session
start = record { authenticated_user = none; selected_mailbox = none; mode = command }

-- A tagged response.
abbrev pub tagged : Str → Str → Bytes
tagged tag text = as_bytes (concat (tag ∷ codes " " ∷ text ∷ crlf ∷ []))

-- An untagged line.
abbrev pub plain_line : Str → Bytes
plain_line text = as_bytes (concat (text ∷ crlf ∷ []))

-- Only writes.
abbrev pub answer : List Bytes → Session → Store → Turn
answer out s st = record { out = out; session = s; store = st }

abbrev pub refuse : Str → Str → Session → Store → Turn
refuse tag text s st = answer (tagged tag text ∷ []) s st

-- `let Some(a) = ... else { ...; continue }`: the rest of an arm, or how it ends early.
abbrev pub let_some {ℓ} : {A : Type ℓ} → Option A → Turn → (A → Turn) → Turn
let_some none t f = t
let_some (some a) t f = f a
