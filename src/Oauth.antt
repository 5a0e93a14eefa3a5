-- ===== src/Oauth.antt =====
-- crates/esmail/src/oauth.rs: the client to sign in with, the redirect of a sign-in, and the tokens over
-- time. A text in a `SecretString` is that text; an instant is a number of nanoseconds.
pub mod Redirect
pub mod Tokens
use esmail.Prelude.{
  ℕ, ◌+◌, ◌*◌, min, Bool, true, false, not, ◌||◌, Option, none, some, List, [], ◌∷◌, ◌++◌, Str,
  codes, is_empty, trim, concat, str_eq, find, get_elem?, split_whitespace, ltb, if◌then◌else◌,
  unwrap_or,
}
use esmail.Prelude.Decimal.{to_string}
use esmail.Prelude.Int.{ℤ}

pub record OAuthClient : Type 0 where
  pub client_id : Str
  pub client_secret : Option Str
  pub auth_url : Str
  pub token_url : Str
  pub scope : Str

abbrev pub google : Str → Option Str → OAuthClient
google client_id client_secret = record {
  client_id = client_id;
  client_secret = client_secret;
  auth_url = codes "https://accounts.google.com/o/oauth2/v2/auth";
  token_url = codes "https://oauth2.googleapis.com/token";
  scope = codes "https://mail.google.com/";
}

pub data ClientSource : Type 0 where
  environment config build : ClientSource

unfoldable pub label : ClientSource → Str
label environment = codes "environment variables"
label config = codes "saved settings"
label build = codes "the build"

-- `[google_oauth]` of the configuration file.
pub record OAuthClientConfig : Type 0 where
  pub client_id : Str
  pub client_secret : Option Str

-- Trimmed; blank counts as absent.
abbrev pub non_empty : Option Str → Option Str
non_empty none = none
non_empty (some v) = if is_empty (trim v) then none else some (trim v)

abbrev pub configured_id : Option OAuthClientConfig → Option Str
configured_id none = none
configured_id (some c) = non_empty (some c.client_id)

abbrev pub configured_secret : Option OAuthClientConfig → Option Str
configured_secret none = none
configured_secret (some c) = non_empty c.client_secret

-- The first candidate with an id.
unfoldable pub first_client :
    List (ClientSource × Option Str × Option Str) → Option (OAuthClient × ClientSource)
first_client [] = none
first_client ((source, none, secret) ∷ rest) = first_client rest
first_client ((source, some id, secret) ∷ rest) = some (google id secret, source)

unfoldable pub resolve_google_client :
    Option Str × Option Str
    → Option OAuthClientConfig
    → Option Str × Option Str
    → Option (OAuthClient × ClientSource)
unfolding first_client
resolve_google_client env configured built = first_client (
    (environment, non_empty env.0, non_empty env.1)
    ∷ (config, configured_id configured, configured_secret configured)
    ∷ (build, non_empty built.0, non_empty built.1)
    ∷ [])

-- A URL of the url library: its path and its query's pairs.
pub record Url : Type 0 where
  pub path : Str
  pub query_pairs : List (Str × Str)

unfoldable pub param : Url → Str → Option Str
param url name = elim (find (λ pair. str_eq pair.0 name) url.query_pairs) [
  | none ↦ none
  | some pair ↦ some pair.1
]

-- What a request to the redirect's port comes to: it is answered with this status and the wait goes
-- on, it was not read and is not answered, or the wait ends, with an error or with the code.
pub data Served : Type 0 where
  unread : Served
  refused : Str → Str → Served
  cancelled : Str → Served
  granted : Str → Served

abbrev pub serve_code : Option Str → Option Str → Served
serve_code (some error) code = cancelled error
serve_code none none = refused (codes "400 Bad Request") (codes "Missing authorization code.")
serve_code none (some code) = granted code

abbrev pub has_state : Str → Url → Bool
has_state expected_state url = elim (param url (codes "state")) [
  | none ↦ false
  | some s ↦ str_eq s expected_state
]

unfoldable pub serve_url : Str → Option Url → Served
serve_url expected_state none = refused (codes "400 Bad Request") (codes "Bad request.")
serve_url expected_state (some url) =
    if not (str_eq url.path (codes "/"))
    then refused (codes "404 Not Found") (codes "Not found.")
    else if has_state expected_state url
    then serve_code (param url (codes "error")) (param url (codes "code"))
    else refused (codes "400 Bad Request")
        (codes "This sign-in link does not match the request esmail made.")

-- `parse` is the url library's, of the target on the loopback address.
unfoldable pub serve_target : (Str → Option Url) → Str → Option Str → Served
unfolding serve_url
serve_target parse expected_state none = refused (codes "400 Bad Request") (codes "Bad request.")
serve_target parse expected_state (some target) =
    serve_url expected_state (parse (codes "http://127.0.0.1" ++ target))

-- The first line of a request, if it was read in time.
unfoldable pub serve : (Str → Option Url) → Str → Option Str → Served
unfolding serve_target
serve parse expected_state none = unread
serve parse expected_state (some request_line) =
    serve_target parse expected_state (get_elem? (split_whitespace request_line) 1)

-- How the wait ends.
pub data Ended : Type 0 where
  code_of : Str → Ended
  error_of : Str → Ended

abbrev pub ended : Served → Option Ended → Option Ended
ended unread later = later
ended (refused status message) later = later
ended (cancelled error) later = some (error_of error)
ended (granted code) later = some (code_of code)

-- The requests that come in, in turn; `none` while the wait goes on.
unfoldable pub await_redirect : (Str → Option Url) → Str → List (Option Str) → Option Ended
unfolding serve
await_redirect parse expected_state [] = none
await_redirect parse expected_state (r ∷ rs) =
    ended (serve parse expected_state r) (await_redirect parse expected_state rs)
