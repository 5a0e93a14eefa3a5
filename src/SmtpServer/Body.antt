-- ===== src/SmtpServer/Body.antt =====
-- The body of a message on its way through crates/mail-mock-server/src/smtp_server.rs.
use esmail.Prelude.{
  ℕ, false, Option, none, some, List, [], ◌∷◌, ◌++◌, map, Str, codes, Bytes, as_bytes, ◌==◌,
  if◌then◌else◌, ◌≡◌, ◌∙◌, refl, sym, ap, arith, Bool-cases, Option-cases, inl, inr,
}
use mathlib.Core.List.{append_assoc, append-nil}
use esmail.MockStore.{Store}
use esmail.SmtpServer.{
  Libraries, Session, Turn, body_line, read_dot_terminated_body, body, command, step, on_line,
  on_body, deliver_all,
}

-- What a client sends for a line of the message: one more dot in front of a dot.
abbrev pub stuff : Str → Str
stuff [] = []
stuff (c ∷ s) = if c == b'.' then b'.' ∷ c ∷ s else c ∷ s

body_line-dots : (s : Str) → body_line (b'.' ∷ b'.' ∷ s) ≡ some (as_bytes (b'.' ∷ s))
unfolding body_line as_bytes
body_line-dots s = refl

body_line-plain :
    (c : ℕ) (s : Str) → (c == b'.') ≡ false → body_line (c ∷ s) ≡ some (as_bytes (c ∷ s))
unfolding body_line
body_line-plain c s e = ground arith

body_line-nothing : body_line [] ≡ some (as_bytes [])
unfolding body_line as_bytes
body_line-nothing = refl

body_line-stuff : (l : Str) → body_line (stuff l) ≡ some (as_bytes l)
body_line-stuff [] = body_line-nothing
body_line-stuff (c ∷ s) = elim (Bool-cases (c == b'.')) [
  | inl e ↦ let dot : c ≡ b'.' = ground arith in rw dot (body_line-dots s)
  | inr e ↦ rw (e, stuff) (body_line-plain c s e)
]

-- The bytes of the lines.
abbrev pub lines_bytes : List Str → Bytes
lines_bytes [] = []
lines_bytes (l ∷ ls) = as_bytes l ++ lines_bytes ls

read-stuffed :
    (ls more : List Str) (raw : Bytes)
    → read_dot_terminated_body raw (map stuff ls ++ codes ".\r\n" ∷ more)
      ≡ some (raw ++ lines_bytes ls, more)
unfolding read_dot_terminated_body body_line
read-stuffed [] more raw = ap (λ r. some (r, more)) (sym (append-nil raw))
read-stuffed (l ∷ ls) more raw =
    rw (body_line-stuff l, read_dot_terminated_body)
      (read-stuffed ls more (raw ++ as_bytes l)
        ∙ ap (λ r. some (r, more)) (append_assoc raw (as_bytes l) (lines_bytes ls)))

-- A message whose lines a client sends with a dot more in front of each dot that starts one, and then
-- the line of a single dot, is read back as its bytes, and what comes behind it is left to be read.
read_dot_terminated_body-stuff :
    (ls more : List Str)
    → read_dot_terminated_body [] (map stuff ls ++ codes ".\r\n" ∷ more)
      ≡ some (lines_bytes ls, more)
read_dot_terminated_body-stuff ls more = read-stuffed ls more []

-- The lines that a connection reads, one by one.
unfoldable pub run_lines : Libraries → List Str → Session → Store → Session × Store
run_lines lib [] s st = (s, st)
run_lines lib (l ∷ ls) s st = let t = step lib (some l) s st in run_lines lib ls t.session t.store

step-body :
    (lib : Libraries) (l : Str) (raw : Bytes) (found : Option Bytes) (s : Session) (st : Store)
    → s.mode ≡ body raw
    → body_line l ≡ found
    → step lib (some l) s st ≡ on_body lib raw found s st
unfolding step on_line
step-body lib l raw found s st h e =
    ap (λ m. on_line lib m l s st) h ∙ ap (λ f. on_body lib raw f s st) e

after_turn : Libraries → List Str → Turn → Session × Store
unfolding run_lines
after_turn lib ls t = run_lines lib ls t.session t.store

read-end :
    (l : Str) (ls : List Str) (raw : Bytes)
    → body_line l ≡ none
    → read_dot_terminated_body raw (l ∷ ls) ≡ some (raw, ls)
unfolding read_dot_terminated_body
read-end l ls raw e = rw (e, read_dot_terminated_body) refl

read-more :
    (l : Str) (ls : List Str) (raw bytes : Bytes)
    → body_line l ≡ some bytes
    → read_dot_terminated_body raw (l ∷ ls) ≡ read_dot_terminated_body (raw ++ bytes) ls
unfolding read_dot_terminated_body
read-more l ls raw bytes e = rw (e, read_dot_terminated_body) refl

same : {a b : Bytes × List Str} → some a ≡ some b → a ≡ b
same e = cc

-- A connection that reads the lines of a body one by one does what `read_dot_terminated_body` says
-- of these lines: when that gives a body and lines behind it, the connection delivers this body once
-- to each recipient of the envelope, and reads the lines behind it as commands.
run_lines-read_dot_terminated_body :
    (lib : Libraries) (ls : List Str) (raw bytes : Bytes) (more : List Str) (s : Session)
    (st : Store)
    → s.mode ≡ body raw
    → read_dot_terminated_body raw ls ≡ some (bytes, more)
    → run_lines lib ls s st
      ≡ run_lines lib more (record s { mode = command }) (deliver_all lib s.recipients bytes st)
unfolding run_lines read_dot_terminated_body on_body after_turn
run_lines-read_dot_terminated_body lib [] raw bytes more s st h e = cc
run_lines-read_dot_terminated_body lib (l ∷ ls) raw bytes more s st h e =
    elim (Option-cases (body_line l)) [
      | inl end_line ↦
          let k : some (raw, ls) ≡ some (bytes, more) = sym (read-end l ls raw end_line) ∙ e in
          ap (after_turn lib ls) (step-body lib l raw none s st h end_line)
          ∙ ap
              (λ (r : Bytes × List Str).
                run_lines lib r.1 (record s { mode = command })
                  (deliver_all lib s.recipients r.0 st))
              (same k)
      | inr (b, found) ↦
          ap (after_turn lib ls) (step-body lib l raw (some b) s st h found)
          ∙ run_lines-read_dot_terminated_body lib ls (raw ++ b) bytes more
              (record s { mode = body (raw ++ b) }) st refl (sym (read-more l ls raw b found) ∙ e)
    ]

-- A connection that reads a body and gets a message in lines with stuffed dots, and the line of a
-- single dot, delivers the bytes it had and those of the message once to each recipient of the
-- envelope, and reads commands again.
pub run_lines-stuff :
    (lib : Libraries) (ls : List Str) (raw : Bytes) (s : Session) (st : Store)
    → s.mode ≡ body raw
    → run_lines lib (map stuff ls ++ codes ".\r\n" ∷ []) s st
      ≡ (record s { mode = command }, deliver_all lib s.recipients (raw ++ lines_bytes ls) st)
unfolding run_lines
run_lines-stuff lib ls raw s st h =
    run_lines-read_dot_terminated_body lib (map stuff ls ++ codes ".\r\n" ∷ []) raw
      (raw ++ lines_bytes ls) [] s st h (read-stuffed ls [] raw)
