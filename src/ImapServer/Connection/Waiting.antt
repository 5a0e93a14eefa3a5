-- ===== src/ImapServer/Connection/Waiting.antt =====
-- What a connection of crates/mail-mock-server/src/imap_server.rs does while a command is not done.
use esmail.Prelude.{Bytes, ℕ, Option, none, some, List, [], ◌∷◌, Str, ◌≡◌, refl, arith}
use esmail.MockStore.{Store}
use esmail.ImapServer.State.{
  Libraries, Mode, command, closed, authenticating, acknowledging, appending, idling, Session,
  Event, line, bytes, delivered, end_of_stream, tagged, answer,
}
use esmail.ImapServer.Access.{authenticate_as}
use esmail.ImapServer.Change.{appended}
use esmail.ImapServer.Connection.{on_line, on_bytes, on_delivery, on_end, step}
use esmail.ImapServer.Connection.Completion.{
  IsCompleteIn, IsComplete, if-IsComplete, appending-IsComplete, idling-IsComplete,
  authenticating-IsComplete, acknowledging-IsComplete, closed-IsComplete,
}

-- The tag of the command that is not done.
abbrev pub pending_tag : Mode → Option Str
pending_tag command = none
pending_tag closed = none
pending_tag (authenticating tag) = some tag
pending_tag (acknowledging tag) = some tag
pending_tag (appending tag name size) = some tag
pending_tag (idling tag name) = some tag

keeps_complete :
    (tag : Str) (m : Mode) (out : List Bytes) → pending_tag m ≡ some tag → IsCompleteIn tag m out
keeps_complete tag command out h = cc
keeps_complete tag closed out h = tt
keeps_complete tag (authenticating t) out h = ground arith
keeps_complete tag (acknowledging t) out h = ground arith
keeps_complete tag (appending t name size) out h = ground arith
keeps_complete tag (idling t name) out h = ground arith

stays-IsComplete :
    (tag : Str) (out : List Bytes) (s : Session) (st : Store)
    → pending_tag s.mode ≡ some tag
    → IsComplete tag (answer out s st)
unfolding IsComplete
stays-IsComplete tag out s st h = keeps_complete tag s.mode out h

ends-IsComplete :
    (tag text : Str) (user selected : Option Str) (st : Store)
    → IsComplete tag (
        answer
          (tagged tag text ∷ [])
          (record { authenticated_user = user; selected_mailbox = selected; mode = command })
          st)
unfolding IsComplete
ends-IsComplete tag text user selected st = ([], text, refl)

ruleset waiting = (
  stays-IsComplete, ends-IsComplete, appending-IsComplete, idling-IsComplete,
  authenticating-IsComplete, acknowledging-IsComplete, closed-IsComplete, if-IsComplete,
)

authenticate_as-waits :
    (lib : Libraries) (tag : Str) (user : Option Str) (s : Session) (st : Store)
    → IsComplete tag (authenticate_as lib tag user s st)
unfolding authenticate_as
authenticate_as-waits lib tag none s st = search waiting
authenticate_as-waits lib tag (some user) s st = search waiting

same_tag : {t tag : Str} → some t ≡ some tag → t ≡ tag
same_tag h = cc

module _ (lib : Libraries) (tag : Str) (s : Session) (st : Store)
    (h : pending_tag s.mode ≡ some tag) where
  on_line-waits :
      (m : Mode) (l : Str) → pending_tag m ≡ some tag → IsComplete tag (on_line lib m l s st)
  unfolding on_line
  on_line-waits command l e = cc
  on_line-waits closed l e = cc
  on_line-waits (authenticating t) l e = rw (same_tag e) (search authenticate_as-waits)
  on_line-waits (acknowledging t) l e = rw (same_tag e) (search waiting)
  on_line-waits (appending t name size) l e = search waiting
  on_line-waits (idling t name) l e = rw (same_tag e) (search waiting)

  on_bytes-waits :
      (m : Mode) (raw : List ℕ)
      → pending_tag m ≡ some tag
      → IsComplete tag (on_bytes lib m raw s st)
  unfolding on_bytes appended
  on_bytes-waits command raw e = cc
  on_bytes-waits closed raw e = cc
  on_bytes-waits (authenticating t) raw e = search waiting
  on_bytes-waits (acknowledging t) raw e = search waiting
  on_bytes-waits (appending t name size) raw e = rw (same_tag e) (search waiting)
  on_bytes-waits (idling t name) raw e = search waiting

  on_delivery-waits :
      (m : Mode) (mailbox : Str)
      → pending_tag m ≡ some tag
      → IsComplete tag (on_delivery m mailbox s st)
  unfolding on_delivery
  on_delivery-waits command mailbox e = cc
  on_delivery-waits closed mailbox e = cc
  on_delivery-waits (authenticating t) mailbox e = search waiting
  on_delivery-waits (acknowledging t) mailbox e = search waiting
  on_delivery-waits (appending t name size) mailbox e = search waiting
  on_delivery-waits (idling t name) mailbox e = search waiting

  on_end-waits : (m : Mode) → IsComplete tag (on_end m s st)
  unfolding on_end
  on_end-waits command = search waiting
  on_end-waits closed = search waiting
  on_end-waits (authenticating t) = search waiting
  on_end-waits (acknowledging t) = search waiting
  on_end-waits (appending t name size) = search waiting
  on_end-waits (idling t name) = search waiting

-- While the command with a tag is not done, every event leaves the connection waiting with that tag,
-- or closed, or, when it is back at waiting for a command, the output ends with a line with that tag.
pub step-IsComplete :
    (lib : Libraries) (tag : Str) (e : Event) (s : Session) (st : Store)
    → pending_tag s.mode ≡ some tag
    → IsComplete tag (step lib e s st)
unfolding step
step-IsComplete lib tag (line l) s st h = on_line-waits lib tag s st h s.mode l h
step-IsComplete lib tag (bytes raw) s st h = on_bytes-waits lib tag s st h s.mode raw h
step-IsComplete lib tag (delivered mailbox) s st h =
    on_delivery-waits lib tag s st h s.mode mailbox h
step-IsComplete lib tag end_of_stream s st h = on_end-waits lib tag s st h s.mode
