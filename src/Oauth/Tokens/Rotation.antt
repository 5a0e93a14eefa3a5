-- ===== src/Oauth/Tokens/Rotation.antt =====
-- What `access_token` of crates/esmail/src/oauth.rs keeps and tells.
use esmail.Prelude.{
  ℕ, ◌+◌, ◌*◌, ◌≤◌, Option, none, some, List, [], ◌∷◌, ◌++◌, Str, ltb, if◌then◌else◌, ◌≡◌, refl,
  sym, ap, ◌∙◌, arith, Bool-cases, inl, inr,
}
use esmail.Oauth.{OAuthClient}
use esmail.Oauth.Tokens.{
  TokenGrant, TokenResponse, Outcome, done, failed, Form, TokenSource, rotate, rotate_if,
  cached_token, refreshed, refresh_form, cached_or, access_token, on_rotation, grant_of, error_or,
  read_response, parse_token_response, second, max_token_lifetime_secs, notify,
}

-- A token that is given out is the one that is kept; an error leaves all as it was.
abbrev pub Agrees : TokenSource → TokenSource → Outcome Str → Type 0
Agrees s after (done token) = (expires_at : ℕ) × (after.access ≡ some (token, expires_at))
Agrees s after (failed e) = after ≡ s

refreshed-Agrees :
    (r : Outcome TokenGrant) (s : TokenSource) → Agrees s (refreshed r s).0 (refreshed r s).1
refreshed-Agrees (done grant) s = (grant.expires_at, refl)
refreshed-Agrees (failed e) s = refl

cached_token-kept :
    (now : ℕ) (access : Option (Str × ℕ)) (token : Str)
    → cached_token now access ≡ some token
    → (expires_at : ℕ) × (access ≡ some (token, expires_at))
cached_token-kept now none token h = cc
cached_token-kept now (some (t, e)) token h = elim (Bool-cases (ltb (now + 60 * second) e)) [
  | inl v ↦
      let k : some t ≡ some token = sym (ap (λ b. if b then some t else none) v) ∙ h in (e, cc)
  | inr v ↦ let k : none ≡ some token = sym (ap (λ b. if b then some t else none) v) ∙ h in cc
]

cached_or-Agrees :
    (cached : Option Str) (s : TokenSource) (r : TokenSource × Outcome Str)
    → ((token : Str)
        → cached ≡ some token
        → (expires_at : ℕ) × (s.access ≡ some (token, expires_at)))
    → Agrees s r.0 r.1
    → Agrees s (cached_or cached s r).0 (cached_or cached s r).1
cached_or-Agrees none s r kept h = h
cached_or-Agrees (some token) s r kept h = kept token refl

-- However the token endpoint answers: an access token that is given out is the one that is kept from
-- then on, and after an error the client, the tokens and what the callback was told are as before.
pub access_token-Agrees :
    (token_request : OAuthClient → Form → Outcome TokenGrant) (now : ℕ) (s : TokenSource)
    → Agrees s (access_token token_request now s).0 (access_token token_request now s).1
unfolding access_token
access_token-Agrees token_request now s =
    cached_or-Agrees (cached_token now s.access) s
      (refreshed (token_request s.client (refresh_form s)) s) (cached_token-kept now s.access)
      (refreshed-Agrees (token_request s.client (refresh_form s)) s)

-- Calls one after the other, each with the time and the endpoint at it.
unfoldable pub calls :
    List (ℕ × (OAuthClient → Form → Outcome TokenGrant)) → TokenSource → TokenSource
calls [] s = s
calls ((now, token_request) ∷ rest) s = calls rest (access_token token_request now s).0

abbrev pub last_or : Str → List Str → Str
last_or token [] = token
last_or token (t ∷ ts) = last_or t ts

-- The refresh token is the last that the callback was told, or the one at its registration.
abbrev pub IsTold : Str → TokenSource → Type 0
IsTold first s =
    (told : List Str) × (s.rotation ≡ some told) × (s.refresh_token ≡ last_or first told)

last_or-append : (first token : Str) (told : List Str) → last_or first (told ++ token ∷ []) ≡ token
last_or-append first token [] = refl
last_or-append first token (t ∷ ts) = last_or-append t token ts

rotate_if-IsTold :
    (first : Str) (token : Option Str) (s : TokenSource)
    → IsTold first s
    → IsTold first (rotate_if token s)
unfolding rotate_if rotate
rotate_if-IsTold first none s h = h
rotate_if-IsTold first (some token) s (told, e, f) =
    (told ++ token ∷ [], ap (notify token) e, sym (last_or-append first token told))

refreshed-IsTold :
    (first : Str) (r : Outcome TokenGrant) (s : TokenSource)
    → IsTold first s
    → IsTold first (refreshed r s).0
refreshed-IsTold first (done grant) s h = rotate_if-IsTold first grant.refresh_token s h
refreshed-IsTold first (failed e) s h = h

cached_or-IsTold :
    (first : Str) (cached : Option Str) (s : TokenSource) (r : TokenSource × Outcome Str)
    → IsTold first s
    → IsTold first r.0
    → IsTold first (cached_or cached s r).0
cached_or-IsTold first none s r h k = k
cached_or-IsTold first (some token) s r h k = h

access_token-IsTold :
    (first : Str) (token_request : OAuthClient → Form → Outcome TokenGrant) (now : ℕ)
    (s : TokenSource)
    → IsTold first s
    → IsTold first (access_token token_request now s).0
unfolding access_token
access_token-IsTold first token_request now s h =
    cached_or-IsTold first (cached_token now s.access) s
      (refreshed (token_request s.client (refresh_form s)) s) h
      (refreshed-IsTold first (token_request s.client (refresh_form s)) s h)

calls-IsTold :
    (first : Str) (cs : List (ℕ × (OAuthClient → Form → Outcome TokenGrant))) (s : TokenSource)
    → IsTold first s
    → IsTold first (calls cs s)
unfolding calls
calls-IsTold first [] s h = h
calls-IsTold first ((now, token_request) ∷ cs) s h =
    calls-IsTold first cs (access_token token_request now s).0
      (access_token-IsTold first token_request now s h)

-- Whatever the endpoint answers at each call, the refresh token in use is the last one that the
-- registered callback was told, or, as long as it was told none, the one at its registration.
pub on_rotation-IsTold :
    (cs : List (ℕ × (OAuthClient → Form → Outcome TokenGrant))) (s : TokenSource)
    → IsTold s.refresh_token (calls cs (on_rotation s))
unfolding on_rotation
on_rotation-IsTold cs s = calls-IsTold s.refresh_token cs (on_rotation s) ([], refl, refl)

abbrev pub ExpiresWithin : ℕ → ℕ → Outcome TokenGrant → Type 0
ExpiresWithin now longest (done grant) =
    (now ≤ grant.expires_at) × (grant.expires_at ≤ now + longest)
ExpiresWithin now longest (failed e) = Unit

abbrev pub one_day : ℕ
one_day = max_token_lifetime_secs * second

grant_of-ExpiresWithin :
    (status now : ℕ) (parsed : TokenResponse) (token : Option Str)
    → ExpiresWithin now one_day (grant_of status now parsed token)
unfolding grant_of
grant_of-ExpiresWithin status now parsed none = tt
grant_of-ExpiresWithin status now parsed (some token) = (omega arith, omega arith)

error_or-ExpiresWithin :
    (now : ℕ) (error description : Option Str) (granted : Outcome TokenGrant)
    → ExpiresWithin now one_day granted
    → ExpiresWithin now one_day (error_or error description granted)
error_or-ExpiresWithin now none description granted h = h
error_or-ExpiresWithin now (some error) description granted h = tt

read_response-ExpiresWithin :
    (status now : ℕ) (parsed : Option TokenResponse)
    → ExpiresWithin now one_day (read_response status now parsed)
unfolding read_response
read_response-ExpiresWithin status now none = tt
read_response-ExpiresWithin status now (some parsed) =
    error_or-ExpiresWithin now parsed.error parsed.error_description
      (grant_of status now parsed parsed.access_token)
      (grant_of-ExpiresWithin status now parsed parsed.access_token)

-- Whatever lifetime the endpoint's answer names, a grant that it gives expires not before the time of
-- the answer and not more than a day after it.
pub parse_token_response-ExpiresWithin :
    (from_str : Str → Option TokenResponse) (status now : ℕ) (body : Str)
    → ExpiresWithin now one_day (parse_token_response from_str status body now)
unfolding parse_token_response
parse_token_response-ExpiresWithin from_str status now body =
    read_response-ExpiresWithin status now (from_str body)
