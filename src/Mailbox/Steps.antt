-- ===== src/Mailbox/Steps.antt =====
-- An open folder over time: every operation of crates/esmail-win32/src/core_glue/mailbox.rs, in any
-- order, with replies that may be late, repeated or lost.
use esmail.Prelude.{ℕ, suc, ◌≤◌, ◌<◌, refl, Option, List, Str, arith, u32_max, u32_mod, u64_mod}
use esmail.Mail.{MailHeader}
use esmail.Mailbox.{
  OpenFolder, new, next_request, refresh_request, page_failed, apply_reply, seed, set_flags, remove,
}
use esmail.Mailbox.Rows.{InStep, apply_reply-InStep, seed-InStep, set_flags-InStep, remove-InStep}
use esmail.Mailbox.Order.{
  NewestFirst, apply_reply-NewestFirst, seed-NewestFirst, set_flags-NewestFirst,
  removed-NewestFirst,
}
use esmail.Mailbox.Requests.{
  IdsValid, new-IdsValid, next_request-IdsValid, refresh_request-IdsValid, apply_reply-IdsValid,
  page_failed-IdsValid, seed-IdsValid, set_flags-IdsValid, remove-IdsValid,
}

module _ (zone : Str → Option (Str × Str)) where
  -- The server and the cache list messages newest first; a counter has not been used up.
  pub data Step : OpenFolder → OpenFolder → Type 0 where
    page_asked : {f : OpenFolder} → suc f.ids.current < u64_mod → Step f (next_request f).0
    refresh_asked : {f : OpenFolder} → suc f.ids.current < u64_mod → Step f (refresh_request f).0
    replied :
        {f : OpenFolder} (id page_no total : ℕ) (headers : List MailHeader)
        → NewestFirst u32_mod headers
        → Step f (apply_reply zone id page_no total headers f).0
    failed : {f : OpenFolder} → Step f (page_failed f)
    seeded :
        {f : OpenFolder} (headers : List MailHeader)
        → NewestFirst u32_mod headers
        → Step f (seed zone headers f).0
    flagged : {f : OpenFolder} (uid : ℕ) (flags : List Str) → Step f (set_flags zone uid flags f).0
    dropped : {f : OpenFolder} (uid : ℕ) → Step f (remove uid f).0

  pub data Reach : OpenFolder → Type 0 where
    opened : Reach new
    next : {f g : OpenFolder} → Reach f → Step f g → Reach g

  -- The rows show the headers, the headers stand newest first with no repeated uid, and the two
  -- outstanding requests have different ids, both handed out.
  pub record IsValid (f : OpenFolder) : Type 0 where
    pub in_step : InStep zone f
    pub order : NewestFirst u32_mod f.headers
    pub ids : IdsValid f

  fits : u32_max ≤ u32_mod
  fits = omega arith

  next_request-shows :
      (f : OpenFolder) → IsValid f → suc f.ids.current < u64_mod → IsValid (next_request f).0
  next_request-shows f v lt = record {
    in_step = unfold next_request in record { rows = ground (arith, v.in_step.rows) };
    order = unfold next_request in ground (arith, v.order);
    ids = next_request-IdsValid f lt v.ids;
  }

  refresh_request-shows :
      (f : OpenFolder) → IsValid f → suc f.ids.current < u64_mod → IsValid (refresh_request f).0
  refresh_request-shows f v lt = record {
    in_step = unfold refresh_request in record { rows = ground (arith, v.in_step.rows) };
    order = unfold refresh_request in ground (arith, v.order);
    ids = refresh_request-IdsValid f lt v.ids;
  }

  Step-IsValid : {f g : OpenFolder} → Step f g → IsValid f → IsValid g
  unfolding page_failed
  Step-IsValid (page_asked {f} lt) v = next_request-shows f v lt
  Step-IsValid (refresh_asked {f} lt) v = refresh_request-shows f v lt
  Step-IsValid (replied {f} id page_no total headers d) v = record {
    in_step = apply_reply-InStep zone id page_no total headers f v.in_step;
    order = apply_reply-NewestFirst zone u32_mod f fits v.order id page_no total headers d;
    ids = apply_reply-IdsValid zone page_no total headers f id v.ids;
  }
  Step-IsValid (failed {f}) v = record {
    in_step = record { rows = v.in_step.rows };
    order = v.order;
    ids = page_failed-IdsValid f v.ids;
  }
  Step-IsValid (seeded {f} headers d) v = record {
    in_step = seed-InStep zone headers f v.in_step;
    order = seed-NewestFirst zone u32_mod f fits v.order headers d;
    ids = seed-IdsValid zone headers f v.ids;
  }
  Step-IsValid (flagged {f} uid flags) v = record {
    in_step = set_flags-InStep zone uid flags f v.in_step;
    order = set_flags-NewestFirst zone u32_mod f fits v.order uid flags;
    ids = set_flags-IdsValid zone uid flags f v.ids;
  }
  Step-IsValid (dropped {f} uid) v = record {
    in_step = remove-InStep zone uid f v.in_step;
    order = removed-NewestFirst zone u32_mod f fits v.order uid;
    ids = remove-IdsValid uid f v.ids;
  }

  new-IsValid : IsValid new
  unfolding new
  new-IsValid = record { in_step = record { rows = refl }; order = tt; ids = new-IdsValid }

  -- In every state that an open folder reaches, whatever replies come and in whatever order, each
  -- with headers that stand newest first, and with fewer than 2^64 requests, the rows shown are
  -- those of the headers, the headers stand newest first with no repeated uid, and the outstanding
  -- page and refresh requests have different ids, both handed out.
  pub reached-IsValid : {f : OpenFolder} → Reach f → IsValid f
  reached-IsValid opened = new-IsValid
  reached-IsValid (next r st) = Step-IsValid st (reached-IsValid r)
