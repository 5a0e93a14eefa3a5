-- ===== src/Examples/Folder.antt =====
-- Examples of crates/esmail-win32/src/core_glue/mailbox.rs and loads.rs.
use esmail.Prelude.{
  ℕ, ◌≡◌, refl, true, Option, none, some, List, [], ◌∷◌, Str, codes, arith, nat_eq,
}
use esmail.Mail.{MailHeader}
use esmail.Mailbox.{
  OpenFolder, new, merge_newest, apply_reply, next_request, refresh_request, is_complete,
  page_reply, append, set_flags, remove,
}
use esmail.Mailbox.Edits.{uids, replay, replay-merge_newest}
use esmail.Mailbox.Paging.{rounds, rounds-headers}
use esmail.Mailbox.Merge.{message, message-merge_newest}
use esmail.Mailbox.Steps.{
  Reach, IsValid, reached-IsValid, opened, next, page_asked, refresh_asked, replied, flagged,
  dropped,
}
use esmail.Loads.{BodyLoads, idle}
use esmail.Loads.Requests.{Event, step, select, deselect, reply, run, answer, run-answered}
use esmail.Loads.Requests.{opened as opened_session}

-- Dates that no zone can show.
abbrev zone : Str → Option (Str × Str)
zone date = none

abbrev mail : ℕ → MailHeader
mail uid = record {
  uid = uid;
  subject = codes "Hi";
  from = codes "Al <al@x.org>";
  to = codes "bo@x.org";
  date = [];
  message_id = [];
  flags = [];
}

abbrev old_page : List MailHeader
old_page = mail 9 ∷ mail 7 ∷ mail 4 ∷ []

abbrev new_page : List MailHeader
new_page = mail 10 ∷ mail 9 ∷ mail 5 ∷ []

-- A folder with the old page loaded, the page and a refresh both outstanding.
abbrev folder : OpenFolder
folder = record new {
  headers = old_page;
  page_request = some 1;
  refresh_request = some 2;
  ids = record { current = 2 };
}

replay-merge_newest_example :
    let (g, edits) = merge_newest zone new_page folder in
    replay (uids g.headers) edits (uids folder.headers) ≡ uids g.headers
replay-merge_newest_example =
    replay-merge_newest zone 11 new_page folder (ground arith) (ground arith)

abbrev pages : List (List MailHeader)
pages = old_page ∷ (mail 3 ∷ []) ∷ []

rounds-headers_example :
    let f = rounds zone pages 2 new in
    (f.headers ≡ mail 9 ∷ mail 7 ∷ mail 4 ∷ mail 3 ∷ [])
    × (is_complete f ≡ true)
    × ((next_request f).1 ≡ none)
rounds-headers_example = rounds-headers zone pages (omega arith) (omega arith) (ground arith)

message-merge_newest_example : message 7 (merge_newest zone new_page folder).0.headers ≡ none
message-merge_newest_example = message-merge_newest zone 7 11 new_page folder (ground arith)

-- A page request and its reply, a refresh and its reply, a change of flags and a removal.
steps :
    Reach zone
      (remove 9
        (set_flags zone 7
          (codes "\\Seen" ∷ [])
          (apply_reply zone 2 1 1 new_page
            (refresh_request (apply_reply zone 1 1 2 old_page (next_request new).0).0).0).0).0).0
unfolding new next_request refresh_request apply_reply page_reply append
steps =
    next
      (next
        (next
          (next
            (next (next opened (page_asked (omega arith))) (replied 1 1 2 old_page (ground arith)))
            (refresh_asked (omega arith)))
          (replied 2 1 1 new_page (ground arith)))
        (flagged 7 (codes "\\Seen" ∷ [])))
      (dropped 9)

reached-IsValid_example :
    IsValid zone
      (remove 9
        (set_flags zone 7
          (codes "\\Seen" ∷ [])
          (apply_reply zone 2 1 1 new_page
            (refresh_request (apply_reply zone 1 1 2 old_page (next_request new).0).0).0).0).0).0
reached-IsValid_example = reached-IsValid zone steps

abbrev session : List (Event ℕ)
session = select 4 ∷ select 7 ∷ reply 4 1 ∷ deselect ∷ select 9 ∷ []

run-answered_example :
    let s = answer nat_eq (answer nat_eq (run nat_eq session (opened_session ℕ))) in
    (s.shown ≡ true) × (s.loads.wanted ≡ some 9)
unfolding run step opened_session
run-answered_example = run-answered nat_eq session 9 (omega arith) refl

abbrev loading : BodyLoads ℕ
loading = record (idle ℕ) { in_flight = some (4, 1); wanted = some 4 }
