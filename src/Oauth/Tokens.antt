-- ===== src/Oauth/Tokens.antt =====
-- The token endpoint's answers and the tokens of an account over time, in crates/esmail/src/oauth.rs.
pub mod Rotation
use esmail.Prelude.{
  ℕ, ◌+◌, ◌*◌, ◌<◌, ◌≤◌, min, Bool, true, false, ◌||◌, Option, none, some, List, [], ◌∷◌, ◌++◌, Str,
  codes, concat, str_eq, ltb, if◌then◌else◌, unwrap_or, ◌≡◌, refl, sym, ap, ◌∙◌, arith, Bool-cases,
  inl, inr,
}
use esmail.Prelude.Decimal.{to_string}
use esmail.Prelude.Int.{ℤ}
use esmail.Oauth.{OAuthClient}

pub record TokenGrant : Type 0 where
  pub access_token : Str
  pub expires_at : ℕ
  pub refresh_token : Option Str

-- The JSON of an answer.
pub record TokenResponse : Type 0 where
  pub access_token : Option Str
  pub expires_in : Option ℕ  -- u64
  pub refresh_token : Option Str
  pub error : Option Str
  pub error_description : Option Str

-- Errors that only a new sign-in mends, and the others.
pub data Failure : Type 0 where
  sign_in_expired other : Str → Failure

pub data Outcome {ℓ} (A : Type ℓ) : Type ℓ where
  done : A → Outcome A
  failed : Failure → Outcome A

abbrev pub Form : Type 0
Form = List (Str × Str)

unfoldable pub client_form : OAuthClient → Form
client_form client =
    (codes "client_id", client.client_id)
    ∷ elim client.client_secret [ none ↦ [] | some secret ↦ (codes "client_secret", secret) ∷ [] ]

abbrev pub detail_of : Option Str → Str
detail_of none = []
detail_of (some d) = codes ": " ++ d

unfoldable pub error_failure : Str → Str → Failure
error_failure error detail =
    if str_eq error (codes "invalid_grant") || str_eq error (codes "unauthorized_client")
    then sign_in_expired (
        concat (
          codes "Google no longer accepts the saved sign-in"
          ∷ detail
          ∷ codes ". Sign in with Google again."
          ∷ []))
    else if str_eq error (codes "invalid_client")
    then other (
        concat (
          codes "Google rejected the OAuth client ID or secret"
          ∷ detail
          ∷ codes ". Check them under Settings."
          ∷ []))
    else other (concat (codes "Google sign-in failed (" ∷ error ∷ detail ∷ codes ")" ∷ []))

abbrev pub second : ℕ
second = 1000000000

abbrev pub max_token_lifetime_secs : ℕ
max_token_lifetime_secs = 24 * 60 * 60

-- An answer without an error.
unfoldable pub grant_of : ℕ → ℕ → TokenResponse → Option Str → Outcome TokenGrant
grant_of status now parsed none = failed (
    other (
      concat (
        codes "the OAuth token response had no access_token (HTTP "
        ∷ to_string status
        ∷ codes ")"
        ∷ [])))
grant_of status now parsed (some access_token) = done (record {
  access_token = access_token;
  expires_at = now + min (unwrap_or parsed.expires_in 3600) max_token_lifetime_secs * second;
  refresh_token = parsed.refresh_token;
})

abbrev pub error_or : Option Str → Option Str → Outcome TokenGrant → Outcome TokenGrant
error_or none description granted = granted
error_or (some error) description granted = failed (error_failure error (detail_of description))

unfoldable pub read_response : ℕ → ℕ → Option TokenResponse → Outcome TokenGrant
unfolding grant_of error_failure
read_response status now none = failed (
    other (
      concat (
        codes "the OAuth token endpoint answered HTTP "
        ∷ to_string status
        ∷ codes " with something that is not JSON"
        ∷ [])))
read_response status now (some parsed) =
    error_or parsed.error parsed.error_description (grant_of status now parsed parsed.access_token)

-- `from_str` is the JSON library's.
unfoldable pub parse_token_response :
    (Str → Option TokenResponse) → ℕ → Str → ℕ → Outcome TokenGrant
unfolding read_response
parse_token_response from_str status body now = read_response status now (from_str body)

-- The client, the refresh token, when a sign-in issued it, the access token with its expiry, and, where
-- a callback is registered, the tokens that it was called with.
pub record TokenSource : Type 0 where
  pub client : OAuthClient
  pub refresh_token : Str
  pub issued_at : Option ℤ
  pub access : Option (Str × ℕ)
  pub rotation : Option (List Str)

unfoldable pub from_refresh_token : OAuthClient → Str → TokenSource
from_refresh_token client refresh_token = record {
  client = client;
  refresh_token = refresh_token;
  issued_at = none;
  access = none;
  rotation = none;
}

unfoldable pub from_grant : OAuthClient → TokenGrant → ℤ → Outcome TokenSource
from_grant client grant now = elim grant.refresh_token [
  | none ↦ failed (
      other (
        codes
          "Google did not return a refresh token, so the sign-in cannot be kept. Remove esmail under Google Account > Security > Third-party access and sign in again."))
  | some refresh_token ↦ done (record {
    client = client;
    refresh_token = refresh_token;
    issued_at = some now;
    access = some (grant.access_token, grant.expires_at);
    rotation = none;
  })
]

-- A callback that has not been called.
unfoldable pub on_rotation : TokenSource → TokenSource
on_rotation s = record s { rotation = some [] }

abbrev pub notify : Str → Option (List Str) → Option (List Str)
notify token none = none
notify token (some told) = some (told ++ token ∷ [])

unfoldable pub rotate : Str → TokenSource → TokenSource
rotate rotated s = record s { refresh_token = rotated; rotation = notify rotated s.rotation }

unfoldable pub rotate_if : Option Str → TokenSource → TokenSource
unfolding rotate
rotate_if none s = s
rotate_if (some rotated) s = rotate rotated s

-- The access token, if it stays valid for a minute.
abbrev pub cached_token : ℕ → Option (Str × ℕ) → Option Str
cached_token now none = none
cached_token now (some (token, expires_at)) =
    if ltb (now + 60 * second) expires_at then some token else none

abbrev pub refresh_form : TokenSource → Form
refresh_form s =
    client_form s.client
    ++ (codes "grant_type", codes "refresh_token") ∷ (codes "refresh_token", s.refresh_token) ∷ []

abbrev pub refreshed : Outcome TokenGrant → TokenSource → TokenSource × Outcome Str
refreshed (failed e) s = (s, failed e)
refreshed (done grant) s = (
  record (rotate_if grant.refresh_token s) { access = some (grant.access_token, grant.expires_at) },
  done grant.access_token,
)

abbrev pub cached_or :
    Option Str → TokenSource → TokenSource × Outcome Str → TokenSource × Outcome Str
cached_or none s refreshing = refreshing
cached_or (some token) s refreshing = (s, done token)

-- `token_request` is the request to the token endpoint, which `parse_token_response` reads.
unfoldable pub access_token :
    (OAuthClient → Form → Outcome TokenGrant) → ℕ → TokenSource → TokenSource × Outcome Str
unfolding rotate_if
access_token token_request now s =
    cached_or (cached_token now s.access) s (refreshed (token_request s.client (refresh_form s)) s)
