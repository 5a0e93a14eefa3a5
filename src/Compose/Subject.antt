-- ===== src/Compose/Subject.antt =====
-- The subject of a reply or a forward, for crates/esmail/src/compose.rs.
use esmail.Prelude.{
  ℕ, true, false, [], ◌∷◌, ◌++◌, Str, codes, length, take, trim_start, is_whitespace, str_eq_refl,
  to_ascii_lowercase, eq_ignore_ascii_case, if◌then◌else◌, ◌≡◌, refl, ap, ◌∙◌, Bool-cases, inl, inr,
}
use esmail.Mail.{MailHeader}
use esmail.Compose.{has_prefix, add_prefix, reply, from_original}

take-length : (p s : Str) → take (length p) (p ++ s) ≡ p
take-length [] s = refl
take-length (c ∷ p) s = ap (λ q. c ∷ q) (take-length p s)

trim_start-stays : (c : ℕ) (s : Str) → is_whitespace c ≡ false → trim_start (c ∷ s) ≡ c ∷ s
trim_start-stays c s h = rw (h, trim_start) refl

add_prefix-kept :
    (subject prefix : Str) → has_prefix subject prefix ≡ true → add_prefix subject prefix ≡ subject
unfolding add_prefix
add_prefix-kept subject prefix e =
    ap (λ b. if b then subject else prefix ++ (codes " " ++ subject)) e

add_prefix-put :
    (subject prefix : Str)
    → has_prefix subject prefix ≡ false
    → add_prefix subject prefix ≡ prefix ++ (codes " " ++ subject)
unfolding add_prefix
add_prefix-put subject prefix e =
    ap (λ b. if b then subject else prefix ++ (codes " " ++ subject)) e

has_prefix-append :
    (c : ℕ) (p s : Str) → is_whitespace c ≡ false → has_prefix ((c ∷ p) ++ s) (c ∷ p) ≡ true
has_prefix-append c p s h =
    ap (λ t. eq_ignore_ascii_case (take (length (c ∷ p)) t) (c ∷ p)) (trim_start-stays c (p ++ s) h)
    ∙ ap (λ t. eq_ignore_ascii_case t (c ∷ p)) (take-length (c ∷ p) s)
    ∙ str_eq_refl (to_ascii_lowercase (c ∷ p))

add_prefix-has_prefix :
    (s : Str) (c : ℕ) (p : Str)
    → is_whitespace c ≡ false
    → has_prefix (add_prefix s (c ∷ p)) (c ∷ p) ≡ true
add_prefix-has_prefix s c p h = elim (Bool-cases (has_prefix s (c ∷ p))) [
  | inl e ↦ ap (λ t. has_prefix t (c ∷ p)) (add_prefix-kept s (c ∷ p) e) ∙ e
  | inr e ↦
      ap (λ t. has_prefix t (c ∷ p)) (add_prefix-put s (c ∷ p) e)
      ∙ has_prefix-append c p (codes " " ++ s) h
]

-- A prefix that starts with no space is added at most once: what has been prefixed stays as it is.
add_prefix-idempotent :
    (s : Str) (c : ℕ) (p : Str)
    → is_whitespace c ≡ false
    → add_prefix (add_prefix s (c ∷ p)) (c ∷ p) ≡ add_prefix s (c ∷ p)
add_prefix-idempotent s c p h =
    add_prefix-kept (add_prefix s (c ∷ p)) (c ∷ p) (add_prefix-has_prefix s c p h)

-- A reply to a reply keeps its subject, as a header with that subject shows.
reply-subject :
    (clean : Str → Str) (h : MailHeader) (html again : Str)
    → (reply clean (record h { subject = (reply clean h html).subject }) again).subject
      ≡ (reply clean h html).subject
unfolding reply from_original
reply-subject clean h html again = add_prefix-idempotent h.subject b'R' (codes "e:") refl
