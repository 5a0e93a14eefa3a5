-- ===== src/Oauth/Redirect.antt =====
-- Which requests end the wait for the redirect of a sign-in, in crates/esmail/src/oauth.rs.
use esmail.Prelude.{
  Bool, false, Option, none, some, List, [], ◌∷◌, ◌++◌, Str, codes, str_eq, get_elem?,
  split_whitespace, ◌≡◌, refl, ◌∙◌, Bool-cases, inl, inr, All,
}
use esmail.Oauth.{
  Url, has_state, Served, unread, refused, cancelled, granted, serve_url, serve_target, serve,
  Ended, ended, await_redirect,
}

-- The URL of a request, where it has one.
abbrev pub url_of_target : (Str → Option Url) → Option Str → Option Url
url_of_target parse none = none
url_of_target parse (some target) = parse (codes "http://127.0.0.1" ++ target)

abbrev pub url_of : (Str → Option Url) → Option Str → Option Url
url_of parse none = none
url_of parse (some request_line) = url_of_target parse (get_elem? (split_whitespace request_line) 1)

abbrev pub knows_state : Str → Option Url → Bool
knows_state expected none = false
knows_state expected (some url) = has_state expected url

-- The requests do not have the state.
abbrev pub AreForeign : (Str → Option Url) → Str → List (Option Str) → Type 0
AreForeign parse expected rs = All (λ r. knows_state expected (url_of parse r) ≡ false) rs

abbrev GoesOn : Served → Type 0
GoesOn unread = Unit
GoesOn (refused status message) = Unit
GoesOn (cancelled error) = ⊥
GoesOn (granted code) = ⊥

serve_url-GoesOn :
    (expected : Str) (url : Option Url)
    → knows_state expected url ≡ false
    → GoesOn (serve_url expected url)
unfolding serve_url
serve_url-GoesOn expected none h = tt
serve_url-GoesOn expected (some url) h = elim (Bool-cases (str_eq url.path (codes "/"))) [
  | inl e ↦ rw (e, h) tt
  | inr e ↦ rw e tt
]

serve_target-GoesOn :
    (parse : Str → Option Url) (expected : Str) (target : Option Str)
    → knows_state expected (url_of_target parse target) ≡ false
    → GoesOn (serve_target parse expected target)
unfolding serve_target
serve_target-GoesOn parse expected none h = tt
serve_target-GoesOn parse expected (some target) h =
    serve_url-GoesOn expected (parse (codes "http://127.0.0.1" ++ target)) h

serve-GoesOn :
    (parse : Str → Option Url) (expected : Str) (r : Option Str)
    → knows_state expected (url_of parse r) ≡ false
    → GoesOn (serve parse expected r)
unfolding serve
serve-GoesOn parse expected none h = tt
serve-GoesOn parse expected (some l) h =
    serve_target-GoesOn parse expected (get_elem? (split_whitespace l) 1) h

ended-GoesOn : (v : Served) (later : Option Ended) → GoesOn v → ended v later ≡ later
ended-GoesOn unread later h = refl
ended-GoesOn (refused status message) later h = refl
ended-GoesOn (cancelled error) later h = elim h [ ]
ended-GoesOn (granted code) later h = elim h [ ]

await_redirect-serve :
    (parse : Str → Option Url) (expected : Str) (r : Option Str) (rs : List (Option Str))
    → GoesOn (serve parse expected r)
    → await_redirect parse expected (r ∷ rs) ≡ await_redirect parse expected rs
unfolding await_redirect
await_redirect-serve parse expected r rs h =
    ended-GoesOn (serve parse expected r) (await_redirect parse expected rs) h

-- Requests without the state that the sign-in made, whatever else they are, change nothing in what
-- the wait comes to: neither a code nor an error of theirs ends it.
pub await_redirect-AreForeign :
    (parse : Str → Option Url) (expected_state : Str) (rs more : List (Option Str))
    → AreForeign parse expected_state rs
    → await_redirect parse expected_state (rs ++ more) ≡ await_redirect parse expected_state more
await_redirect-AreForeign parse expected_state [] more h = refl
await_redirect-AreForeign parse expected_state (r ∷ rs) more (h, hs) =
    await_redirect-serve parse expected_state r (rs ++ more) (serve-GoesOn parse expected_state r h)
    ∙ await_redirect-AreForeign parse expected_state rs more hs
