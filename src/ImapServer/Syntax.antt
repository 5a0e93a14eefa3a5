-- ===== src/ImapServer/Syntax.antt =====
-- How the mock IMAP server of crates/mail-mock-server/src/imap_server.rs reads command lines and
-- writes its responses, as bytes.
pub mod Tokens
use esmail.Prelude.{
  ℕ, Bool, true, false, Option, none, some, List, [], ◌∷◌, ◌++◌, Str, codes, join, is_empty, ◌==◌,
  if◌then◌else◌, length, Bytes, as_bytes, concat, crlf, unwrap_or, u32_mod, split_once,
}
use esmail.Prelude.Decimal.{to_string, parse_below}
use esmail.MockStore.{Address, StoredMessage}

-- What `tokenize` is doing: between tokens, in a token without quotes, in one with quotes, or behind
-- a backslash in the latter.
pub data Lexing : Type 0 where
  between plain quoted escaped : Lexing

unfoldable pub tokens_from : Lexing → Str → Str → List Str
tokens_from between s [] = []
tokens_from plain s [] = s ∷ []
tokens_from quoted s [] = s ∷ []
tokens_from escaped s [] = s ∷ []
tokens_from between s (c ∷ rest) =
    let skipped = tokens_from between [] rest in
    let opened = tokens_from quoted [] rest in
    let started = tokens_from plain (c ∷ []) rest in
    if c == b' ' then skipped else if c == b'"' then opened else started
tokens_from plain s (c ∷ rest) =
    let ended = s ∷ tokens_from between [] rest in
    let pushed = tokens_from plain (s ++ c ∷ []) rest in if c == b' ' then ended else pushed
tokens_from quoted s (c ∷ rest) =
    let closed = s ∷ tokens_from between [] rest in
    let behind = tokens_from escaped s rest in
    let pushed = tokens_from quoted (s ++ c ∷ []) rest in
    if c == b'"' then closed else if c == b'\\' then behind else pushed
tokens_from escaped s (c ∷ rest) = tokens_from quoted (s ++ c ∷ []) rest

unfoldable pub tokenize : Str → List Str
unfolding tokens_from
tokenize line = tokens_from between [] line

abbrev pub parse_u32 : Str → Option ℕ
parse_u32 s = parse_below u32_mod s

abbrev pub range_of : Str → Option (Str × Str) → ℕ × ℕ
range_of spec none = let n = unwrap_or (parse_u32 spec) 1 in (n, n)
range_of spec (some (a, b)) =
    let start = unwrap_or (parse_u32 a) 1 in (start, unwrap_or (parse_u32 b) start)

unfoldable pub parse_range : Str → ℕ × ℕ
parse_range spec = range_of spec (split_once b':' spec)

unfoldable pub literal : Bytes → Bytes
literal bytes =
    concat (
      as_bytes (concat (codes "{" ∷ to_string (length bytes) ∷ codes "}" ∷ crlf ∷ [])) ∷ bytes ∷ [])

nstring : Str → Bytes
unfolding literal
nstring s = if is_empty s then codes "NIL" else literal (as_bytes s)

address : Option Address → Bytes
unfolding nstring
address none = codes "NIL"
address (some a) = concat (
    codes "(("
    ∷ nstring a.display_name
    ∷ codes " NIL "
    ∷ nstring a.mailbox
    ∷ codes " "
    ∷ nstring a.host
    ∷ codes "))"
    ∷ [])

unfoldable pub envelope_fetch_response : ℕ → StoredMessage → Bytes
unfolding nstring address
envelope_fetch_response seq msg =
    let e = msg.envelope in
    concat (
      as_bytes (
        concat (
          codes "* "
          ∷ to_string seq
          ∷ codes " FETCH (UID "
          ∷ to_string msg.uid
          ∷ codes " ENVELOPE ("
          ∷ []))
      ∷ nstring e.date
      ∷ codes " "
      ∷ nstring e.subject
      ∷ codes " "
      ∷ address e.from
      ∷ codes " "
      ∷ address e.from
      ∷ codes " "
      ∷ address e.from
      ∷ codes " "
      ∷ address e.to
      ∷ codes " NIL NIL NIL "
      ∷ nstring e.message_id
      ∷ codes ") FLAGS ("
      ∷ as_bytes (join msg.flags (codes " "))
      ∷ codes "))"
      ∷ crlf
      ∷ [])

unfoldable pub flags_fetch_response : ℕ → StoredMessage → Bytes
flags_fetch_response seq msg = as_bytes (
    concat (
      codes "* "
      ∷ to_string seq
      ∷ codes " FETCH (FLAGS ("
      ∷ join msg.flags (codes " ")
      ∷ codes "))"
      ∷ crlf
      ∷ []))

unfoldable pub rfc822_fetch_response : ℕ → StoredMessage → Bytes
unfolding literal
rfc822_fetch_response seq msg = concat (
    as_bytes (
      concat (
        codes "* "
        ∷ to_string seq
        ∷ codes " FETCH (UID "
        ∷ to_string msg.uid
        ∷ codes " RFC822 "
        ∷ []))
    ∷ literal msg.raw
    ∷ codes ")"
    ∷ crlf
    ∷ [])
