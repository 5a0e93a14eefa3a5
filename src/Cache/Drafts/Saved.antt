-- ===== src/Cache/Drafts/Saved.antt =====
-- What a saved draft is when it is opened again.
use esmail.Prelude.{
  ℕ, suc, ◌≤◌, ◌<◌, ◌≡◌, refl, Bool, true, false, Option, none, some, List, [], ◌∷◌, ◌++◌, Str,
  arith, ◌==◌, any, find, All, Option-cases, inl, inr, subst,
}
use esmail.Compose.{ComposeState}
use esmail.Cache.Drafts.{
  DraftRow, Drafts, ComposeJson, update_draft, write_draft, save_draft, load_draft,
}

-- The ids of the rows are at most the last one given out.
abbrev pub IsBounded : Drafts → Type 0
IsBounded d = All (λ (r : DraftRow). r.id ≤ d.last_id) d.rows

abbrev pub has_draft : ℕ → List DraftRow → Bool
has_draft id rs = any (λ (r : DraftRow). r.id == id) rs

-- The text of the draft with the id.
abbrev pub json_of : ℕ → List DraftRow → Option Str
json_of id rs = elim (find (λ (r : DraftRow). r.id == id) rs) [
  | none ↦ none
  | some r ↦ some r.compose_json
]

json_of-update_draft :
    (id : ℕ) (a : Option Str) (json : Str) (now : ℕ) (rs : List DraftRow)
    → has_draft id rs ≡ true
    → json_of id (update_draft id a json now rs) ≡ some json
unfolding update_draft
json_of-update_draft id a json now [] e = cc
json_of-update_draft id a json now (r ∷ rs) e =
    ground (arith, json_of-update_draft id a json now rs)

json_of-update_draft_other :
    (id other : ℕ) (a : Option Str) (json : Str) (now : ℕ) (rs : List DraftRow)
    → (other == id) ≡ false
    → json_of other (update_draft id a json now rs) ≡ json_of other rs
unfolding update_draft
json_of-update_draft_other id other a json now [] e = refl
json_of-update_draft_other id other a json now (r ∷ rs) e =
    ground (arith, json_of-update_draft_other id other a json now rs e)

json_of-push :
    (new : DraftRow) (rs : List DraftRow)
    → All (λ (r : DraftRow). r.id < new.id) rs
    → json_of new.id (rs ++ new ∷ []) ≡ some new.compose_json
json_of-push new [] h = ground arith
json_of-push new (r ∷ rs) h = ground (arith, json_of-push new rs h.1)

json_of-push_other :
    (new : DraftRow) (other : ℕ) (rs : List DraftRow)
    → (other == new.id) ≡ false
    → json_of other (rs ++ new ∷ []) ≡ json_of other rs
json_of-push_other new other [] e = ground arith
json_of-push_other new other (r ∷ rs) e = ground (arith, json_of-push_other new other rs e)

-- A draft is new, or its row is there.
abbrev pub is_open : Option ℕ → List DraftRow → Bool
is_open none rs = true
is_open (some id) rs = has_draft id rs

-- What a table holds after a draft was written to it.
IsWritten : Drafts → Drafts → Str → ℕ → ℕ → Type 0
IsWritten before after json new other =
    (json_of new after.rows ≡ some json)
    × (((other == new) ≡ false) → json_of other after.rows ≡ json_of other before.rows)

All-below :
    (id : ℕ) (rs : List DraftRow)
    → All (λ (r : DraftRow). r.id ≤ id) rs
    → All (λ (r : DraftRow). r.id < suc id) rs
All-below id [] h = tt
All-below id (r ∷ rs) h = (omega (arith, h.0), All-below id rs h.1)

write_draft-IsWritten :
    (id : Option ℕ) (a : Option Str) (json : Str) (now other : ℕ) (d : Drafts)
    → IsBounded d
    → is_open id d.rows ≡ true
    → let (after, new) = write_draft id a json now d in IsWritten d after json new other
unfolding write_draft IsWritten
write_draft-IsWritten none a json now other d b e =
    let row : DraftRow = record {
      id = suc d.last_id;
      account_id = a;
      compose_json = json;
      updated_at = now;
    } in
    (
      json_of-push row d.rows (All-below d.last_id d.rows b),
      λ ne. json_of-push_other row other d.rows ne,
    )
write_draft-IsWritten (some id) a json now other d b e = (
  json_of-update_draft id a json now d.rows e,
  λ ne. json_of-update_draft_other id other a json now d.rows ne,
)

-- `from_json`, of the text that was found.
abbrev read_json : ComposeJson → Option Str → Option ComposeState
read_json lib none = none
read_json lib (some json) = lib.from_json json

load_draft-json_of :
    (lib : ComposeJson) (id : ℕ) (d : Drafts)
    → load_draft lib id d ≡ read_json lib (json_of id d.rows)
unfolding load_draft
load_draft-json_of lib id d = elim (Option-cases (find (λ (r : DraftRow). r.id == id) d.rows)) [
  | inl e ↦ ground (arith, e)
  | inr (r, e) ↦ ground (arith, e)
]

-- A draft that was saved, as a new one or over the row that it has, is loaded with its id again as
-- it was, and every other draft as before, given that the JSON library reads back what it writes for
-- it and that no row has an id that was not given out.
pub save_draft-load_draft :
    (lib : ComposeJson) (id : Option ℕ) (a : Option Str) (compose : ComposeState)
    (now new other : ℕ) (before after : Drafts)
    → ((json : Str) → lib.to_json compose ≡ some json → lib.from_json json ≡ some compose)
    → IsBounded before
    → is_open id before.rows ≡ true
    → save_draft lib id a compose now before ≡ some (after, new)
    → (other == new) ≡ false
    → (load_draft lib new after ≡ some compose)
      × (load_draft lib other after ≡ load_draft lib other before)
unfolding save_draft IsWritten
save_draft-load_draft lib id a compose now new other before after law b opened e ne =
    elim (Option-cases (lib.to_json compose)) [
      | inl f ↦ absurd (ground (arith, f))
      | inr (json, f) ↦
          let same : write_draft id a json now before ≡ (after, new) = ground (arith, f) in
          let written = write_draft-IsWritten id a json now other before b opened in
          let stored : IsWritten before after json new other =
            subst (λ p. IsWritten before p.0 json p.1 other) same written in
          rw
            (
              load_draft-json_of lib new after,
              load_draft-json_of lib other after,
              load_draft-json_of lib other before,
              stored.0,
              stored.1 ne,
            )
            (law json f, refl)
    ]
