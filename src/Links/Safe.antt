-- ===== src/Links/Safe.antt =====
-- Which links leave the application for the browser.
use esmail.Prelude.{
  ℕ, ◌≡◌, ◌↔◌, refl, sym, ap, ◌∙◌, Bool, true, false, not, ◌&&◌, ◌||◌, Option, none, some, Str,
  codes, arith, str_eq, starts_with, split_once, trim, to_ascii_lowercase, as_bytes, length, ltb,
  Bool-cases, inl, inr,
}
use esmail.Prelude.{u64_mod}
use esmail.Prelude.Decimal.{parse_below}
use esmail.Links.{
  LinkAction, browser, save_attachment, open_attachment, reconnect, mail, numbered, attachment_at,
  attachment, is_malformed, by_scheme, classify,
}

abbrev pub is_browser : LinkAction → Bool
is_browser (browser url) = true
is_browser _ = false

-- The scheme is one of the web, in any case, and an address follows.
abbrev pub is_web_address : Option (Str × Str) → Bool
is_web_address none = false
is_web_address (some (scheme, rest)) =
    (str_eq (to_ascii_lowercase scheme) (codes "http")
      || str_eq (to_ascii_lowercase scheme) (codes "https"))
    && starts_with rest (codes "//")
    && ltb 2 (length (as_bytes rest))

abbrev pub is_web : Str → Bool
is_web href = not (is_malformed href) && is_web_address (split_once b':' href)

numbered-quiet :
    (action : ℕ → LinkAction) (n : Option ℕ)
    → ((m : ℕ) → is_browser (action m) ≡ false)
    → is_browser (numbered action n) ≡ false
numbered-quiet action none quiet = refl
numbered-quiet action (some m) quiet = quiet m

mail-quiet : (rest : Str) → is_browser (mail rest) ≡ false
unfolding mail
mail-quiet rest = ground arith

attachment_at-quiet :
    (rest : Str) (parts : Option (Str × Str)) → is_browser (attachment_at rest parts) ≡ false
attachment_at-quiet rest none = ground arith
attachment_at-quiet rest (some (verb, n)) = ground (
  arith,
  numbered-quiet save_attachment (parse_below u64_mod n) (λ m. refl),
  numbered-quiet open_attachment (parse_below u64_mod n) (λ m. refl),
)

attachment-quiet : (rest : Str) → is_browser (attachment rest) ≡ false
unfolding attachment
attachment-quiet rest = attachment_at-quiet rest (split_once b'/' rest)

by_scheme-web :
    (href : Str) (parts : Option (Str × Str))
    → (is_browser (by_scheme href parts) ≡ is_web_address parts)
      × (is_web_address parts ≡ true → by_scheme href parts ≡ browser href)
unfolding by_scheme
by_scheme-web href none = ground arith
by_scheme-web href (some (scheme, rest)) = ground (
  arith,
  mail-quiet rest,
  attachment-quiet rest,
  numbered-quiet reconnect (parse_below u64_mod rest) (λ m. refl),
)

url_of : LinkAction → Str → Str
url_of (browser url) other = url
url_of _ other = other

-- A click on a link opens the browser exactly if the link is not malformed and has a scheme of the
-- web with an address behind it, and then at the link itself without the space around it.
pub classify-is_web :
    (text url : Str)
    → (classify text ≡ browser url) ↔ ((url ≡ trim text) × (is_web (trim text) ≡ true))
unfolding classify url_of
classify-is_web text url =
    let href = trim text in
    let parts = split_once b':' href in
    let (same, opened) = by_scheme-web href parts in
    elim (Bool-cases (is_malformed href)) [
      | inl e ↦ ground (arith, e)
      | inr e ↦ (
        λ f.
            let g : by_scheme href parts ≡ browser url = ground (arith, e, f) in
            let web : is_web_address parts ≡ true = sym same ∙ ap is_browser g in
            (ap (λ a. url_of a href) (sym g ∙ opened web), ground (arith, e, web)),
        λ (f, web).
            let address : is_web_address parts ≡ true = ground (arith, e, web) in
            let g = opened address in ground (arith, e, f, g),
      )
    ]
