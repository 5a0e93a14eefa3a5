-- ===== src/Config/Saved.antt =====
-- Which account the configuration has under an id once another was saved.
use esmail.Prelude.{
  ◌≡◌, ap, false, Option, none, some, List, [], ◌∷◌, Str, arith, str_eq, str_eq_refl, str_eq→eq,
  Bool-cases, inl, inr, if◌then◌else◌,
}
use esmail.Config.{AccountConfig}
use esmail.Config.Accounts.{merged, upsert_in}

unfoldable pub account_at : Str → List AccountConfig → Option AccountConfig
account_at id [] = none
account_at id (a ∷ accounts) =
    let rest = account_at id accounts in if str_eq a.id id then some a else rest

-- What is saved in the place of an account that may be there.
abbrev pub saved_over : AccountConfig → Option AccountConfig → AccountConfig
saved_over account none = account
saved_over account (some existing) = merged account existing

pub account_at-upsert_in :
    (account : AccountConfig) (accounts : List AccountConfig)
    → account_at account.id (upsert_in account accounts)
      ≡ some (saved_over account (account_at account.id accounts))
unfolding account_at upsert_in
account_at-upsert_in account [] = ground (arith, str_eq_refl account.id)
account_at-upsert_in account (a ∷ accounts) =
    ground (arith, str_eq_refl account.id, account_at-upsert_in account accounts)

pub account_at-upsert_in_other :
    (account : AccountConfig) (id : Str) (accounts : List AccountConfig)
    → str_eq account.id id ≡ false
    → account_at id (upsert_in account accounts) ≡ account_at id accounts
unfolding account_at upsert_in
account_at-upsert_in_other account id [] e = ground arith
account_at-upsert_in_other account id (a ∷ accounts) e =
    elim (Bool-cases (str_eq a.id account.id)) [
      | inl f ↦ ground (arith, f, ap (λ s. str_eq s id) (str_eq→eq a.id account.id f))
      | inr f ↦ ground (arith, f, account_at-upsert_in_other account id accounts e)
    ]
