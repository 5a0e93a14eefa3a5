-- ===== src/Examples/SignIn.antt =====
-- Examples of crates/esmail/src/oauth.rs.
use esmail.Prelude.{
  Option, none, some, List, [], ◌∷◌, ◌++◌, Str, codes, str_eq, if◌then◌else◌, ◌≡◌, refl,
}
use esmail.Oauth.{OAuthClient, google, Url, param, await_redirect}
use esmail.Oauth.Redirect.{await_redirect-AreForeign}
use esmail.Oauth.Tokens.{
  TokenGrant, TokenResponse, other, Outcome, done, failed, Form, TokenSource, from_refresh_token,
  on_rotation, access_token, parse_token_response,
}
use esmail.Oauth.Tokens.Rotation.{
  Agrees, access_token-Agrees, calls, IsTold, on_rotation-IsTold, ExpiresWithin, one_day,
  parse_token_response-ExpiresWithin,
}

-- A reader of two targets.
abbrev parse : Str → Option Url
parse target =
    if str_eq target (codes "http://127.0.0.1/?state=s&code=c")
    then some (record {
      path = codes "/";
      query_pairs = (codes "state", codes "s") ∷ (codes "code", codes "c") ∷ [];
    })
    else if str_eq target (codes "http://127.0.0.1/favicon.ico")
    then some (record { path = codes "/favicon.ico"; query_pairs = [] })
    else none

abbrev strangers : List (Option Str)
strangers = some (codes "GET /favicon.ico HTTP/1.1") ∷ none ∷ some (codes "hello") ∷ []

await_redirect-AreForeign_example :
    await_redirect parse
      (codes "s")
      (strangers ++ some (codes "GET /?state=s&code=c HTTP/1.1") ∷ [])
    ≡ await_redirect parse (codes "s") (some (codes "GET /?state=s&code=c HTTP/1.1") ∷ [])
unfolding param
await_redirect-AreForeign_example =
    await_redirect-AreForeign parse (codes "s") strangers
      (some (codes "GET /?state=s&code=c HTTP/1.1") ∷ []) (refl, (refl, (refl, tt)))

abbrev source : TokenSource
source = from_refresh_token (google (codes "id") none) (codes "r0")

abbrev rotating : OAuthClient → Form → Outcome TokenGrant
rotating client form =
    done (record { access_token = codes "a1"; expires_at = 5; refresh_token = some (codes "r1") })

abbrev failing : OAuthClient → Form → Outcome TokenGrant
failing client form = failed (other (codes "no network"))

access_token-Agrees_example :
    Agrees source (access_token failing 0 source).0 (access_token failing 0 source).1
access_token-Agrees_example = access_token-Agrees failing 0 source

on_rotation-IsTold_example :
    IsTold source.refresh_token
      (calls ((0, rotating) ∷ (9, failing) ∷ (9, rotating) ∷ []) (on_rotation source))
on_rotation-IsTold_example =
    on_rotation-IsTold ((0, rotating) ∷ (9, failing) ∷ (9, rotating) ∷ []) source

abbrev long_lived : Str → Option TokenResponse
long_lived body = some (record {
  access_token = some (codes "a1");
  expires_in = some 18446744073709551615;
  refresh_token = none;
  error = none;
  error_description = none;
})

parse_token_response-ExpiresWithin_example :
    ExpiresWithin 7 one_day (parse_token_response long_lived 200 (codes "{}") 7)
parse_token_response-ExpiresWithin_example =
    parse_token_response-ExpiresWithin long_lived 200 7 (codes "{}")
