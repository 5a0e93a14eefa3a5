-- ===== src/Watcher/Accounts.antt =====
-- Which sessions run after `apply_accounts`.
use esmail.Prelude.{
  ◌≡◌, ◌∙◌, refl, ap, inl, inr, Bool, true, false, not, Option, none, some, List, [], ◌∷◌, ◌++◌,
  Str, arith, Bool-cases, if◌then◌else◌, str_eq, str_eq→eq, str_eq_refl, keep, any-append,
}
use esmail.Config.{AccountConfig, Auth}
use esmail.Watcher.{
  Watched, Accounts, get, remove, started, restart_account, is_unchanged, start_all, is_wanted,
  apply_accounts,
}
use esmail.Watcher.States.{get-insert, get-insert_other}

get-keep :
    (p : Str → Bool) (id : Str) (es : Accounts)
    → get id (keep (λ (e : Str × Watched). p e.0) es) ≡ (if p id then get id es else none)
get-keep p id [] = ground arith
get-keep p id (e ∷ es) = elim (Bool-cases (str_eq e.0 id)) [
  | inl same ↦ ground (arith, get-keep p id es, ap p (str_eq→eq e.0 id same))
  | inr other ↦ ground (arith, get-keep p id es)
]

get-restart_account_other :
    (config : AccountConfig) (auth : Auth) (id : Str) (es : Accounts)
    → str_eq config.id id ≡ false
    → get id (restart_account config auth es) ≡ get id es
unfolding restart_account
get-restart_account_other config auth id es ne =
    get-insert_other config.id id (started config auth) (remove config.id es) ne
    ∙ get-keep (λ k. not (str_eq k config.id)) id es
    ∙ ground (arith, str_eq→eq id config.id, str_eq_refl id)

-- The accounts after one turn of the loop.
turn : AccountConfig → Auth → Accounts → Accounts
turn config auth es =
    if is_unchanged config (get config.id es) then es else restart_account config auth es

get-turn_other :
    (config : AccountConfig) (auth : Auth) (id : Str) (es : Accounts)
    → str_eq config.id id ≡ false
    → get id (turn config auth es) ≡ get id es
unfolding turn
get-turn_other config auth id es ne = ground (arith, get-restart_account_other config auth id es ne)

get-start_all_other :
    (desired : List (AccountConfig × Auth)) (id : Str) (es : Accounts)
    → is_wanted desired id ≡ false
    → get id (start_all desired es) ≡ get id es
unfolding start_all turn
get-start_all_other [] id es ne = refl
get-start_all_other ((config, auth) ∷ desired) id es ne =
    get-start_all_other desired id (turn config auth es) (ground arith)
    ∙ get-turn_other config auth id es (ground arith)

-- What the account must have: its session as it is if its configuration is unchanged, and
-- otherwise a new one.
abbrev pub wanted_entry : AccountConfig → Auth → Option Watched → Option Watched
wanted_entry config auth w = if is_unchanged config w then w else some (started config auth)

get-turn :
    (config : AccountConfig) (auth : Auth) (es : Accounts)
    → get config.id (turn config auth es) ≡ wanted_entry config auth (get config.id es)
unfolding turn restart_account
get-turn config auth es =
    ground (arith, get-insert config.id (started config auth) (remove config.id es))

get-start_all :
    (before after : List (AccountConfig × Auth)) (config : AccountConfig) (auth : Auth)
    (es : Accounts)
    → is_wanted before config.id ≡ false
    → is_wanted after config.id ≡ false
    → get config.id (start_all (before ++ (config, auth) ∷ after) es)
      ≡ wanted_entry config auth (get config.id es)
unfolding start_all turn
get-start_all [] after config auth es nb na =
    get-start_all_other after config.id (turn config auth es) na ∙ get-turn config auth es
get-start_all ((c, a) ∷ before) after config auth es nb na =
    get-start_all before after config auth (turn c a es) (ground arith) na
    ∙ ap (wanted_entry config auth) (get-turn_other c a config.id es (ground arith))

-- After `apply_accounts`, an account that is not desired has no session. One that is desired keeps
-- its entry as it is, its session included, if it had one with the same configuration, and otherwise
-- has a newly started one. No other desired account has its id.
pub get-apply_accounts :
    (before after : List (AccountConfig × Auth)) (config : AccountConfig) (auth : Auth)
    (unwanted : Str) (es : Accounts)
    → is_wanted before config.id ≡ false
    → is_wanted after config.id ≡ false
    → is_wanted (before ++ (config, auth) ∷ after) unwanted ≡ false
    → let applied = apply_accounts (before ++ (config, auth) ∷ after) es in
      (get config.id applied ≡ wanted_entry config auth (get config.id es))
      × (get unwanted applied ≡ none)
unfolding apply_accounts
get-apply_accounts before after config auth unwanted es nb na nu =
    let desired = before ++ (config, auth) ∷ after in
    let kept = keep (λ (e : Str × Watched). is_wanted desired e.0) es in
    let is_in : is_wanted desired config.id ≡ true = ground (
      arith,
      any-append (λ (d : AccountConfig × Auth). str_eq d.0.id config.id) before
          ((config, auth) ∷ after),
      str_eq_refl config.id,
    ) in
    (
      get-start_all before after config auth kept nb na
          ∙ ap (wanted_entry config auth) (
              get-keep (is_wanted desired) config.id es
              ∙ ap (λ b. if b then get config.id es else none) is_in),
      get-start_all_other desired unwanted kept nu
          ∙ get-keep (is_wanted desired) unwanted es
          ∙ ap (λ b. if b then get unwanted es else none) nu,
    )
