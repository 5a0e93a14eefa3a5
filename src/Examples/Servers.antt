-- ===== src/Examples/Servers.antt =====
-- Examples of crates/mail-mock-server/src/imap_server.rs and crates/mail-mock-server/src/smtp_server.rs.
use esmail.Prelude.{true, false, none, some, List, [], ◌∷◌, map, Str, codes, join, ◌≡◌, refl}
use esmail.MockStore.{Store, Envelope}
use esmail.ImapServer.Syntax.{tokenize}
use esmail.ImapServer.Syntax.Tokens.{write_token, tokenize-write_token}
use esmail.ImapServer.State.{Libraries, Session, idling, line, start}
use esmail.ImapServer.Connection.{step, run_tokens}
use esmail.ImapServer.Connection.Access.{IsGuarded, connected, next, Reach-IsGuarded, Reach-store}
use esmail.ImapServer.Connection.Completion.{IsComplete}
use esmail.ImapServer.Connection.Answers.{run_tokens-IsComplete}
use esmail.ImapServer.Connection.Waiting.{step-IsComplete}
use esmail.SmtpServer
use esmail.SmtpServer.Access.{Dialogue, Dialogue-store}
use esmail.SmtpServer.Body.{lines_bytes, run_lines, run_lines-stuff}

abbrev blank : Envelope
blank = record { date = []; subject = []; from = none; to = none; message_id = [] }

abbrev libraries : Libraries
libraries = record {
  base64_decode = λ s. some s;
  base64_encode = λ b. b;
  from_utf8 = λ b. some b;
  parse_envelope = λ b. blank;
}

abbrev store : Store
store = record {
  users = (codes "al", codes "pw") ∷ [];
  oauth_tokens = [];
  mailboxes = [];
  notify = [];
  drop_next_rfc822_fetch = false;
}

-- The session after a SELECT without a user.
abbrev refused : Session
refused = (step libraries (line (codes "a1 SELECT INBOX\r\n")) start store).session

Reach-IsGuarded_example : IsGuarded refused
Reach-IsGuarded_example =
    Reach-IsGuarded libraries refused
      (next start (line (codes "a1 SELECT INBOX\r\n")) store connected)

Reach-store_example :
    (step libraries (line (codes "a1 APPEND INBOX {3}\r\n")) start store).store ≡ store
Reach-store_example =
    Reach-store libraries (line (codes "a1 APPEND INBOX {3}\r\n")) start store connected refl

run_tokens-IsComplete_example :
    IsComplete (codes "a2") (run_tokens libraries (codes "a2" ∷ codes "NOOP" ∷ []) start store)
run_tokens-IsComplete_example =
    run_tokens-IsComplete libraries (codes "a2") (codes "NOOP" ∷ []) start store refl

abbrev idle_session : Session
idle_session = record {
  authenticated_user = some (codes "al");
  selected_mailbox = some (codes "INBOX");
  mode = idling (codes "a3") (codes "INBOX");
}

step-IsComplete_example :
    IsComplete (codes "a3") (step libraries (line (codes "DONE\r\n")) idle_session store)
step-IsComplete_example =
    step-IsComplete libraries (codes "a3") (line (codes "DONE\r\n")) idle_session store refl

tokenize-write_token_example :
    tokenize
      (join (map write_token (codes "a1" ∷ codes "SELECT" ∷ codes "My \"box\"" ∷ [])) (codes " "))
    ≡ codes "a1" ∷ codes "SELECT" ∷ codes "My \"box\"" ∷ []
tokenize-write_token_example =
    tokenize-write_token (codes "a1" ∷ codes "SELECT" ∷ codes "My \"box\"" ∷ [])

abbrev smtp_libraries : SmtpServer.Libraries
smtp_libraries = record {
  base64_decode = λ s. some s;
  from_utf8 = λ b. some b;
  parse_envelope = λ b. blank;
}

Dialogue-store_example :
    (SmtpServer.step smtp_libraries (some (codes "DATA\r\n")) SmtpServer.start store).store ≡ store
Dialogue-store_example =
    Dialogue-store smtp_libraries (some (codes "DATA\r\n")) SmtpServer.start store
      (Dialogue.connected) refl

-- In the body of a message to two recipients.
abbrev in_body : SmtpServer.Session
in_body = record {
  authenticated = true;
  recipients = codes "bo@x.org" ∷ codes "cy@x.org" ∷ [];
  mode = SmtpServer.body [];
}

abbrev sent : List Str
sent = codes "Hi\r\n" ∷ codes "..\r\n" ∷ codes ".\r\n" ∷ codes "QUIT\r\n" ∷ []

run_lines-stuff_example :
    run_lines smtp_libraries (codes "Hi\r\n" ∷ codes "..\r\n" ∷ codes ".\r\n" ∷ []) in_body store
    ≡ (
      record in_body { mode = SmtpServer.command },
      SmtpServer.deliver_all smtp_libraries in_body.recipients
          (lines_bytes (codes "Hi\r\n" ∷ codes ".\r\n" ∷ []))
          store,
    )
run_lines-stuff_example =
    run_lines-stuff smtp_libraries (codes "Hi\r\n" ∷ codes ".\r\n" ∷ []) [] in_body store refl
