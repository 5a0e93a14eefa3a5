-- ===== src/SmtpServer/Access.antt =====
-- Who can have a message delivered by crates/mail-mock-server/src/smtp_server.rs.
use esmail.Prelude.{
  Bool, true, false, not, ◌&&◌, ◌||◌, Option, none, some, List, [], Str, Bytes, is_empty,
  if◌then◌else◌, to_ascii_uppercase, ◌≡◌, refl, arith,
}
use esmail.MockStore.{Store}
use esmail.SmtpServer.{
  Libraries, Mode, Session, Turn, start, reply, body_line, body, command, closed, step, on_line,
  on_body, run_command, without_end,
}

abbrev pub may_deliver : Session → Bool
may_deliver s = s.authenticated && not (is_empty s.recipients)

abbrev IsGuardedBy : Bool → Mode → Type 0
IsGuardedBy may command = Unit
IsGuardedBy may closed = Unit
IsGuardedBy may (body raw) = may ≡ true

-- A connection that reads a body is authenticated and has a recipient.
abbrev pub IsGuarded : Session → Type 0
IsGuarded s = IsGuardedBy (may_deliver s) s.mode

-- The sessions that lines lead to, whatever the store is at each of them.
pub data Dialogue (lib : Libraries) : Session → Type 0 where
  connected : Dialogue lib start
  next :
      (s : Session) (l : Option Str) (st : Store)
      → Dialogue lib s
      → Dialogue lib (step lib l s st).session

unfoldable IsSafe : Store → Turn → Type 0
IsSafe st t = IsGuarded t.session × (t.store ≡ st)

if-IsSafe :
    (st : Store) (b : Bool) (t u : Turn)
    → IsSafe st t
    → IsSafe st u
    → IsSafe st (if b then t else u)
if-IsSafe st true t u h k = h
if-IsSafe st false t u h k = k

reply-IsSafe :
    (text : Str) (auth : Bool) (rs : List Str) (st : Store)
    → IsSafe st (reply text (record { authenticated = auth; recipients = rs; mode = command }) st)
unfolding IsSafe
reply-IsSafe text auth rs st = (tt, refl)

quit-IsSafe :
    (text : Str) (auth : Bool) (rs : List Str) (st : Store)
    → IsSafe st (reply text (record { authenticated = auth; recipients = rs; mode = closed }) st)
unfolding IsSafe
quit-IsSafe text auth rs st = (tt, refl)

data-IsSafe :
    (text t' : Str) (auth : Bool) (rs : List Str) (st : Store)
    → IsSafe st (
        if not auth || is_empty rs
        then reply text (record { authenticated = auth; recipients = rs; mode = command }) st
        else reply t' (record { authenticated = auth; recipients = rs; mode = body [] }) st)
unfolding IsSafe
data-IsSafe text t' auth rs st = ground arith

run_command-IsSafe :
    (lib : Libraries) (trimmed upper : Str) (auth : Bool) (rs : List Str) (st : Store)
    → IsSafe st (
        run_command lib trimmed upper
          (record { authenticated = auth; recipients = rs; mode = command })
          st)
unfolding run_command
run_command-IsSafe lib trimmed upper auth rs st =
    search (data-IsSafe, if-IsSafe, reply-IsSafe, quit-IsSafe) depth 16

abbrev session : Bool → List Str → Mode → Session
session auth rs m = record { authenticated = auth; recipients = rs; mode = m }

on_body-IsGuarded :
    (lib : Libraries) (raw : Bytes) (found : Option Bytes) (auth : Bool) (rs : List Str)
    (st : Store)
    → (auth && not (is_empty rs)) ≡ true
    → IsGuarded (on_body lib raw found (session auth rs (body raw)) st).session
unfolding on_body
on_body-IsGuarded lib raw none auth rs st h = tt
on_body-IsGuarded lib raw (some bytes) auth rs st h = h

step-IsGuarded :
    (lib : Libraries) (l : Option Str) (auth : Bool) (rs : List Str) (m : Mode) (st : Store)
    → IsGuarded (session auth rs m)
    → IsGuarded (step lib l (session auth rs m) st).session
unfolding step on_line IsSafe
step-IsGuarded lib none auth rs m st h = tt
step-IsGuarded lib (some l) auth rs command st h =
    (run_command-IsSafe lib (without_end l) (to_ascii_uppercase (without_end l)) auth rs st).0
step-IsGuarded lib (some l) auth rs closed st h = tt
step-IsGuarded lib (some l) auth rs (body raw) st h =
    on_body-IsGuarded lib raw (body_line l) auth rs st h

-- Whatever a client sends and whatever the store holds, a connection that reads a body has
-- authenticated and has a recipient.
Dialogue-IsGuarded : (lib : Libraries) (s : Session) → Dialogue lib s → IsGuarded s
Dialogue-IsGuarded lib _ connected = tt
Dialogue-IsGuarded lib _ (next s l st r) =
    step-IsGuarded lib l s.authenticated s.recipients s.mode st (Dialogue-IsGuarded lib s r)

step-safe :
    (lib : Libraries) (l : Option Str) (auth : Bool) (rs : List Str) (m : Mode) (st : Store)
    → IsGuarded (session auth rs m)
    → (auth && not (is_empty rs)) ≡ false
    → (step lib l (session auth rs m) st).store ≡ st
unfolding step on_line IsSafe
step-safe lib none auth rs m st h shut = refl
step-safe lib (some l) auth rs command st h shut =
    (run_command-IsSafe lib (without_end l) (to_ascii_uppercase (without_end l)) auth rs st).1
step-safe lib (some l) auth rs closed st h shut = refl
step-safe lib (some l) auth rs (body raw) st h shut = cc

-- A connection that has not authenticated, or whose envelope has no recipient, delivers nothing: no
-- line that it reads, and no end of its stream, changes the store.
pub Dialogue-store :
    (lib : Libraries) (l : Option Str) (s : Session) (st : Store)
    → Dialogue lib s
    → may_deliver s ≡ false
    → (step lib l s st).store ≡ st
Dialogue-store lib l s st r shut =
    step-safe lib l s.authenticated s.recipients s.mode st (Dialogue-IsGuarded lib s r) shut
