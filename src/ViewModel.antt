-- ===== src/ViewModel.antt =====
-- crates/esmail/src/view_model.rs: the small formatters and the lookup of a mailbox by its use.
pub mod Names
use esmail.Prelude.{
  ℕ, Bool, true, false, ◌&&◌, ◌||◌, not, Option, none, some, List, [], ◌∷◌, ◌++◌, Str, codes,
  concat, is_empty, str_eq, find, unwrap_or, ◌==◌, if◌then◌else◌,
}
use esmail.Folders.{SpecialUse, inbox, sent, drafts, trash, archive, junk, MailboxRow}

-- The kinds of crates/esmail/src/progress.rs.
pub data ProgressKind : Type 0 where
  index flags move append export attachment send : ProgressKind

unfoldable pub progress_label : ProgressKind → Str → Str
progress_label index mailbox = concat (codes "Indexing " ∷ mailbox ∷ codes "..." ∷ [])
progress_label flags mailbox = codes "Updating flags..."
progress_label move mailbox = codes "Moving messages..."
progress_label append mailbox = codes "Saving to Sent..."
progress_label export mailbox = codes "Exporting message..."
progress_label attachment mailbox = codes "Saving attachment..."
progress_label send mailbox = codes "Sending message..."

abbrev pub is_separator : ℕ → Bool
is_separator c = c == b'/' || c == b'\\'

-- The last piece of `rsplit`, with the piece read so far.
unfoldable pub last_piece : Str → Str → Str
last_piece current [] = current
last_piece current (c ∷ s) =
    let behind = last_piece [] s in
    let pushed = last_piece (current ++ c ∷ []) s in if is_separator c then behind else pushed

abbrev pub is_usable : Str → Bool
is_usable name =
    not (is_empty name) && not (str_eq name (codes ".")) && not (str_eq name (codes ".."))

unfoldable pub safe_attachment_filename : Str → Str
unfolding last_piece
safe_attachment_filename filename =
    let name = last_piece [] filename in if is_usable name then name else codes "attachment"

abbrev pub use_index : SpecialUse → ℕ
use_index inbox = 0
use_index sent = 1
use_index drafts = 2
use_index trash = 3
use_index archive = 4
use_index junk = 5

-- `row.special_use == Some(want)`.
abbrev pub is_for_use : SpecialUse → Option SpecialUse → Bool
is_for_use want none = false
is_for_use want (some u) = use_index u == use_index want

unfoldable pub find_special_use_mailbox : List MailboxRow → SpecialUse → Str → Str
find_special_use_mailbox rows want default =
    elim (find (λ row. is_for_use want row.special_use) rows) [
      | none ↦ default
      | some row ↦ unwrap_or row.full_name default
    ]
