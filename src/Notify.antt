-- ===== src/Notify.antt =====
-- crates/esmail/src/notify.rs: when new mail is announced and what the toast says. The form
-- encoding of the launch arguments is the url library's, a parameter.
pub mod Watermark
pub mod Toast
use esmail.Prelude.{
  ℕ, zero, suc, ◌-◌, ◌+◌, ◌/◌, ◌%◌, Bool, true, false, not, ◌&&◌, ◌||◌, Option, none, some, List,
  [], ◌∷◌, ◌++◌, map, Str, codes, is_empty, is_whitespace, join, ltb, leb, ◌==◌, if◌then◌else◌,
  take, length,
}
use esmail.Prelude.Decimal.{to_string}
use esmail.Mail.{MailHeader}

pub record MailWatermark : Type 0 where
  pub uid_validity : ℕ  -- u32
  pub uid_next : ℕ  -- u32

pub data WatermarkUpdate : Type 0 where
  baseline : WatermarkUpdate
  new_mail : ℕ → ℕ → WatermarkUpdate  -- first_new_uid, count
  unchanged : WatermarkUpdate

unfoldable pub update_watermark :
    Option MailWatermark → MailWatermark → MailWatermark × WatermarkUpdate
update_watermark none current = (current, baseline)
update_watermark (some p) current = (
  current,
  if not (p.uid_validity == current.uid_validity)
      then baseline
      else if ltb p.uid_next current.uid_next
      then new_mail p.uid_next (current.uid_next - p.uid_next)
      else unchanged,
)

abbrev pub max_field_len : ℕ
max_field_len = 120

-- `char::is_control`: the code points of category Cc.
abbrev pub is_control : ℕ → Bool
is_control c = ltb c 32 || (leb 127 c && ltb c 160)

abbrev pub flush_word : Str → List Str → List Str
flush_word [] rest = rest
flush_word (c ∷ cs) rest = (c ∷ cs) ∷ rest

-- `str::split_whitespace`.
unfoldable pub words_from : Str → Str → List Str
words_from current [] = flush_word current []
words_from current (c ∷ s) =
    let ended = flush_word current (words_from [] s) in
    let pushed = words_from (current ++ c ∷ []) s in if is_whitespace c then ended else pushed

unfoldable pub truncate_chars : Str → ℕ → Str
truncate_chars s max_chars =
    if leb (length s) max_chars then s else take (max_chars - 1) s ++ 8230 ∷ []

abbrev pub without_control : ℕ → ℕ
without_control c = if is_control c then b' ' else c

unfoldable pub sanitize_toast_field : Str → Str
unfolding words_from truncate_chars
sanitize_toast_field input =
    truncate_chars (join (words_from [] (map without_control input)) (codes " ")) max_field_len

abbrev pub or_default : Str → Str → Str
or_default s default = if is_empty s then default else s

unfoldable pub build_notification : List MailHeader → Option (Str × Str)
unfolding sanitize_toast_field
build_notification [] = none
build_notification (h ∷ []) = some (
  codes "New mail from " ++ or_default (sanitize_toast_field h.from) (codes "someone"),
  or_default (sanitize_toast_field h.subject) (codes "(no subject)"),
)
build_notification (h ∷ i ∷ hs) =
    let n = length (h ∷ i ∷ hs) in
    some (codes "New mail", to_string n ++ codes " new messages in INBOX")

-- The label in front of the title.
abbrev pub labelled : Str → Option (Str × Str) → Option (Str × Str)
labelled label none = none
labelled label (some (title, body)) =
    if is_empty label then some (title, body) else some (label ++ (codes ": " ++ title), body)

unfoldable pub build_account_notification : Str → List MailHeader → Option (Str × Str)
unfolding build_notification sanitize_toast_field
build_account_notification label headers =
    labelled (sanitize_toast_field label) (build_notification headers)

-- The text that stands for one character.
abbrev pub escaped : ℕ → Str
escaped c =
    if c == b'&'
    then codes "&amp;"
    else if c == b'<'
    then codes "&lt;"
    else if c == b'>'
    then codes "&gt;"
    else if c == b'"'
    then codes "&quot;"
    else if c == 39
    then codes "&apos;"
    else c ∷ []

unfoldable pub xml_escape : Str → Str
xml_escape [] = []
xml_escape (c ∷ s) = escaped c ++ xml_escape s

-- `form_encode` is the url library's encoding of a key and a value.
unfoldable pub launch_arguments : (Str → Str → Str) → Str → Str
launch_arguments form_encode account_id = form_encode (codes "account") account_id

unfoldable pub toast_xml : (Str → Str → Str) → Str → Str → Str → Str
unfolding xml_escape launch_arguments
toast_xml form_encode title body account_id =
    codes "<toast launch=\""
    ++ (xml_escape (launch_arguments form_encode account_id)
        ++ (codes "\"><visual><binding template=\"ToastGeneric\"><text>"
            ++ (xml_escape title
                ++ (codes "</text><text>"
                    ++ (xml_escape body
                        ++ codes
                            "</text></binding></visual><audio src=\"ms-winsoundevent:Notification.Mail\"/></toast>")))))
