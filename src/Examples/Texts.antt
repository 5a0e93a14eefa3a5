-- ===== src/Examples/Texts.antt =====
-- Examples of crates/esmail/src/search_query.rs and of the text of crates/esmail/src/notify.rs.
use esmail.Prelude.{
  ℕ, ◌≡◌, refl, true, Option, none, some, List, [], ◌∷◌, map, Str, codes, join, arith, length,
}
use esmail.Prelude.Int.{ℤ, pos}
use esmail.Query.{parse, empty, MessageFilters}
use esmail.Query.Terms.{Term, bare, from, subject, render}
use esmail.Query.Fields.{parse-render}
use esmail.Notify.{MailWatermark}
use esmail.Notify.Watermark.{announcements, announcements-uids}

-- The terms `"say ""hi"""`, `from:"ann lee"` and `subject:"x:y"`.
abbrev terms : List Term
terms = bare (codes "say \"hi\"") ∷ from (codes "ann lee") ∷ subject (codes "x:y") ∷ []

parse-render_example : parse (join (map render terms) (codes " ")) ≡ record empty {
  text = codes "say \"hi\"" ∷ [];
  from = codes "ann lee" ∷ [];
  subject = codes "x:y" ∷ [];
}
parse-render_example = parse-render terms ((tt, refl), (tt, (tt, tt)))

-- Dates by their length.
abbrev seconds : Str → Option ℤ
seconds [] = none
seconds (c ∷ s) = some (pos (length s))

abbrev since_two : MessageFilters
since_two = record { since = some (pos 2); before = none; unread_only = true }

abbrev mark : ℕ → MailWatermark
mark n = record { uid_validity = 100; uid_next = n }

announcements-uids_example :
    announcements none (mark 50 ∷ mark 52 ∷ mark 52 ∷ mark 53 ∷ []) ≡ 50 ∷ 51 ∷ 52 ∷ []
announcements-uids_example =
    announcements-uids (mark 50) (mark 52 ∷ mark 52 ∷ mark 53 ∷ []) (ground arith)
