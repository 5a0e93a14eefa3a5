-- ===== src/ImapServer/Connection/Completion.antt =====
-- When a command of crates/mail-mock-server/src/imap_server.rs has had its answer, and the shapes of
-- the arms of `handle_connection` that give one.
use esmail.Prelude.{
  if◌then◌else◌, Bytes, ◌++◌, ℕ, Bool, true, false, Option, none, some, List, [], ◌∷◌, Str, ◌≡◌,
  refl,
}
use esmail.MockStore.{Store}
use esmail.ImapServer.State.{
  Mode, command, closed, authenticating, acknowledging, appending, idling, Session, Turn, tagged,
  answer, let_some,
}

-- The last line of the output is a response with the tag.
abbrev pub EndsWithTag : Str → List Bytes → Type 0
EndsWithTag tag out = (before : List Bytes) × (text : Str) × (out ≡ before ++ tagged tag text ∷ [])

abbrev pub IsCompleteIn : Str → Mode → List Bytes → Type 0
IsCompleteIn tag command out = EndsWithTag tag out
IsCompleteIn tag closed out = Unit
IsCompleteIn tag (authenticating t) out = t ≡ tag
IsCompleteIn tag (acknowledging t) out = t ≡ tag
IsCompleteIn tag (appending t name size) out = t ≡ tag
IsCompleteIn tag (idling t name) out = t ≡ tag

unfoldable pub IsComplete : Str → Turn → Type 0
IsComplete tag t = IsCompleteIn tag t.session.mode t.out

-- The answer ends with a tagged line, or the connection waits on with the tag.
module _ (tag : Str) where
  pub answer-IsComplete :
      (before : List Bytes) (text : Str) (s : Session) (st : Store)
      → s.mode ≡ command
      → IsComplete tag (answer (before ++ tagged tag text ∷ []) s st)
  unfolding IsComplete
  answer-IsComplete before text s st h = rw (h, IsCompleteIn) (before, text, refl)

  pub tagged-IsComplete :
      (text : Str) (s : Session) (st : Store)
      → s.mode ≡ command
      → IsComplete tag (answer (tagged tag text ∷ []) s st)
  tagged-IsComplete text s st h = answer-IsComplete [] text s st h

  pub if-IsComplete :
      (b : Bool) (t u : Turn)
      → IsComplete tag t
      → IsComplete tag u
      → IsComplete tag (if b then t else u)
  if-IsComplete true t u h k = h
  if-IsComplete false t u h k = k

  pub let_some-IsComplete :
      {A : Type 0} (o : Option A) (t : Turn) (f : A → Turn)
      → IsComplete tag t
      → ((a : A) → IsComplete tag (f a))
      → IsComplete tag (let_some o t f)
  let_some-IsComplete none t f h k = h
  let_some-IsComplete (some a) t f h k = k a

  pub appending-IsComplete :
      (out : List Bytes) (name : Str) (size : ℕ) (s : Session) (st : Store)
      → IsComplete tag (answer out (record s { mode = appending tag name size }) st)
  unfolding IsComplete
  appending-IsComplete out name size s st = refl

  pub idling-IsComplete :
      (out : List Bytes) (name : Str) (s : Session) (st : Store)
      → IsComplete tag (answer out (record s { mode = idling tag name }) st)
  unfolding IsComplete
  idling-IsComplete out name s st = refl

  pub authenticating-IsComplete :
      (out : List Bytes) (s : Session) (st : Store)
      → IsComplete tag (answer out (record s { mode = authenticating tag }) st)
  unfolding IsComplete
  authenticating-IsComplete out s st = refl

  pub acknowledging-IsComplete :
      (out : List Bytes) (s : Session) (st : Store)
      → IsComplete tag (answer out (record s { mode = acknowledging tag }) st)
  unfolding IsComplete
  acknowledging-IsComplete out s st = refl

  pub closed-IsComplete :
      (out : List Bytes) (s : Session) (st : Store)
      → IsComplete tag (answer out (record s { mode = closed }) st)
  unfolding IsComplete
  closed-IsComplete out s st = tt

-- Enough to follow the branches of an arm.
pub ruleset completing = (
  appending-IsComplete, idling-IsComplete, authenticating-IsComplete, acknowledging-IsComplete,
  closed-IsComplete, tagged-IsComplete, answer-IsComplete, if-IsComplete, let_some-IsComplete,
)
