-- ===== src/Cache/Drafts.antt =====
-- crates/esmail/src/db.rs: the drafts, with the JSON library as the parameter. The rows stand in the
-- order of their ids, and `last_id` is what AUTOINCREMENT remembers; an error is `none`.
pub mod Saved
use esmail.Prelude.{
  ℕ, suc, Bool, not, Option, none, some, List, [], ◌∷◌, ◌++◌, Str, leb, ◌==◌, if◌then◌else◌, keep,
  find, sort_by,
}
use esmail.Compose.{ComposeState}

pub record DraftRow : Type 0 where
  pub id : ℕ  -- i64
  pub account_id : Option Str
  pub compose_json : Str
  pub updated_at : ℕ  -- i64

pub record Drafts : Type 0 where
  pub rows : List DraftRow
  pub last_id : ℕ  -- i64

pub record DraftSummary : Type 0 where
  pub id : ℕ
  pub subject : Str
  pub to : Str
  pub updated_at : ℕ

pub record ComposeJson : Type 0 where
  pub to_json : ComposeState → Option Str
  pub from_json : Str → Option ComposeState

-- `UPDATE drafts SET ... WHERE id = ...`.
unfoldable pub update_draft : ℕ → Option Str → Str → ℕ → List DraftRow → List DraftRow
update_draft id account_id json now [] = []
update_draft id account_id json now (r ∷ rs) =
    let rest = update_draft id account_id json now rs in
    if r.id == id
    then record r { account_id = account_id; compose_json = json; updated_at = now } ∷ rest
    else r ∷ rest

-- The two statements of `save_draft`, with the id that each returns.
unfoldable pub write_draft : Option ℕ → Option Str → Str → ℕ → Drafts → Drafts × ℕ
unfolding update_draft
write_draft (some id) account_id json now d =
    (record d { rows = update_draft id account_id json now d.rows }, id)
write_draft none account_id json now d = (
  record {
    rows =
        d.rows
        ++ record {
          id = suc d.last_id;
          account_id = account_id;
          compose_json = json;
          updated_at = now;
        }
          ∷ [];
    last_id = suc d.last_id;
  },
  suc d.last_id,
)

unfoldable pub save_draft :
    ComposeJson → Option ℕ → Option Str → ComposeState → ℕ → Drafts → Option (Drafts × ℕ)
unfolding write_draft
save_draft lib id account_id compose now d = elim (lib.to_json compose) [
  | none ↦ none
  | some json ↦ some (write_draft id account_id json now d)
]

-- `ORDER BY updated_at DESC`.
abbrev pub updated_later : DraftRow → DraftRow → Bool
updated_later r s = leb s.updated_at r.updated_at

unfoldable pub draft_summary : ComposeJson → DraftRow → Option DraftSummary
draft_summary lib r = elim (lib.from_json r.compose_json) [
  | none ↦ none
  | some compose ↦
      some (record {
        id = r.id;
        subject = compose.subject;
        to = compose.to;
        updated_at = r.updated_at;
      })
]

-- `rows.collect()`: the first row that cannot be read is the error.
unfoldable pub collect_drafts : ComposeJson → List DraftRow → Option (List DraftSummary)
unfolding draft_summary
collect_drafts lib [] = some []
collect_drafts lib (r ∷ rs) =
    let rest = collect_drafts lib rs in
    elim (draft_summary lib r) [
      | none ↦ none
      | some s ↦ elim rest [ none ↦ none | some ss ↦ some (s ∷ ss) ]
    ]

unfoldable pub list_drafts : ComposeJson → Drafts → Option (List DraftSummary)
unfolding collect_drafts
list_drafts lib d = collect_drafts lib (sort_by updated_later d.rows)

unfoldable pub load_draft : ComposeJson → ℕ → Drafts → Option ComposeState
load_draft lib id d = elim (find (λ (r : DraftRow). r.id == id) d.rows) [
  | none ↦ none
  | some r ↦ lib.from_json r.compose_json
]

unfoldable pub delete_draft : ℕ → Drafts → Drafts
delete_draft id d = record d { rows = keep (λ (r : DraftRow). not (r.id == id)) d.rows }
