-- ===== src/Backups/Notes.antt =====
-- The words of the backup list (ui/src/features/backups/backup-model.ts): kinds, notes and the
-- server's messages for a file that is no backup.
use kiro_reverse_api.Prelude.{
  ℕ, ◌+◌, Bool, true, false, ◌&&◌, ◌||◌, not, List, [], ◌∷◌, Option, none, some, if◌then◌else◌, leb,
  ◌==◌, length, drop, or_else, All, if_keeps,
}
use kiro_reverse_api.Text.{Text, codes, text_eq, is_full, starts_with, or_text}
use kiro_reverse_api.Text.Params.{Param, param}
use kiro_reverse_api.Text.Trim.{trim}

pub data BackupTone : Type 0 where
  primary neutral warning : BackupTone

-- `EMPTY` of ui/src/lib/format.ts, an em dash.
abbrev pub empty_mark : Text
empty_mark = 0x2014 ∷ []

pub record BackupEntry : Type 0 where
  pub kind : Text
  pub note : Option Text

abbrev kind_key : Text → Text
kind_key kind =
    if text_eq kind (codes "manual")
    then codes "kindManual"
    else if text_eq kind (codes "scheduled")
    then codes "kindScheduled"
    else if text_eq kind (codes "auto")
    then codes "kindAuto"
    else if text_eq kind (codes "pre-restore")
    then codes "kindPreRestore"
    else []

unfoldable pub kind_tone : Text → BackupTone
kind_tone kind =
    if text_eq kind (codes "manual")
    then primary
    else if text_eq kind (codes "pre-restore")
    then warning
    else neutral

abbrev upload_prefix : Text
upload_prefix = codes "upload "

abbrev restore_prefix : Text
restore_prefix = codes "auto before restore "

-- `SCHEDULED_NOTE.exec(note)`: the cadence that the note names.
abbrev pub scheduled_cadence : Text → Option Text
scheduled_cadence note =
    if text_eq note (codes "auto-hourly")
    then some (codes "hourly")
    else if text_eq note (codes "auto-daily")
    then some (codes "daily")
    else if text_eq note (codes "auto-weekly")
    then some (codes "weekly")
    else none

-- A small letter or, with `i`, its capital.
abbrev same_letter : ℕ → ℕ → Bool
same_letter d c =
    c == d || (leb b'a' d && leb d b'z' && c + 32 == d) || (leb b'A' d && leb d b'Z' && c == d + 32)

-- `/^p/i`
abbrev starts_like : Text → Text → Bool
starts_like s [] = true
starts_like [] (d ∷ p) = false
starts_like (c ∷ s) (d ∷ p) = same_letter d c && starts_like s p

abbrev is_word_unit : ℕ → Bool
is_word_unit c =
    (leb b'a' c && leb c b'z')
    || (leb b'A' c && leb c b'Z')
    || (leb b'0' c && leb c b'9')
    || c == b'_'

abbrev word_ends : Text → Bool
word_ends [] = true
word_ends (c ∷ s) = not (is_word_unit c)

-- `/^p\b/i`, where `p` ends with a letter.
abbrev pub phrase_starts : Text → Text → Bool
phrase_starts p s = starts_like s p && word_ends (drop (length p) s)

-- `/^p$/i`
abbrev pub is_phrase : Text → Text → Bool
is_phrase p s = starts_like s p && length s == length p

-- `\d+ missing id$`, after the first digit.
abbrev number_missing : Text → Bool
number_missing [] = false
number_missing (c ∷ s) =
    if leb b'0' c && leb c b'9' then number_missing s else is_phrase (codes " missing id") (c ∷ s)

abbrev first_digit : Text → Bool
first_digit [] = false
first_digit (c ∷ s) = leb b'0' c && leb c b'9'

-- `/^credential \d+ missing id$/i`
abbrev credential_missing : Text → Bool
credential_missing s =
    let rest = drop (length (codes "credential ")) s in
    starts_like s (codes "credential ") && first_digit rest && number_missing rest

unfoldable pub is_not_a_backup_message : Text → Bool
is_not_a_backup_message message =
    let s = trim message in
    is_phrase (codes "backup content is not valid JSON") s
    || phrase_starts (codes "backup JSON parse failed") s
    || phrase_starts (codes "unsupported backup format") s
    || phrase_starts (codes "backup envelope parse failed") s
    || phrase_starts (codes "unsupported backup version") s
    || phrase_starts (codes "backup schema mismatch") s
    || credential_missing s

-- `t` is the translation function.
module _ (t : Text → List Param → Text) where
  unfoldable pub kind_label : Text → Text
  kind_label kind =
      let key = kind_key kind in if is_full key then t key [] else or_text kind empty_mark

  module _ (mask : Text → Text) where
    abbrev pre_restore_note : Text → Text
    pre_restore_note note =
        if starts_with note upload_prefix
        then t (codes "noteBeforeUpload")
            (param (codes "name") (mask (drop (length upload_prefix) note)) ∷ [])
        else if starts_with note restore_prefix
        then t (codes "noteBeforeRestore")
            (param (codes "id") (mask (drop (length restore_prefix) note)) ∷ [])
        else or_text (mask note) empty_mark

    abbrev scheduled_note : Text → Option Text → Text
    scheduled_note note none = or_text (mask note) empty_mark
    scheduled_note note (some cadence) =
        t (codes "noteScheduled") (param (codes "cadence") (t cadence []) ∷ [])

    unfoldable pub note_text : BackupEntry → Text
    note_text entry =
        let note = trim (or_else entry.note []) in
        if not (is_full note)
        then empty_mark
        else if text_eq entry.kind (codes "pre-restore")
        then pre_restore_note note
        else if text_eq entry.kind (codes "scheduled")
        then scheduled_note note (scheduled_cadence note)
        else or_text (mask note) empty_mark

module _ (P : Text → Type 0) (t : Text → List Param → Text) (mask : Text → Text)
    (t_keeps : (key : Text) (ps : List Param) → All (λ p. P p.value) ps → P (t key ps))
    (masked : (s : Text) → P (mask s)) (mark : P empty_mark) where
  or_mark : (s : Text) → P s → P (or_text s empty_mark)
  or_mark [] h = mark
  or_mark (c ∷ s) h = h

  scheduled_kept : (note : Text) (cadence : Option Text) → P (scheduled_note t mask note cadence)
  scheduled_kept note none = or_mark (mask note) (masked note)
  scheduled_kept note (some cadence) =
      t_keeps (codes "noteScheduled") (param (codes "cadence") (t cadence []) ∷ [])
        (t_keeps cadence [] tt, tt)

  -- What the note column shows has every property that a masked text has, such as holding no email:
  -- no part of a note reaches it unmasked. The translation keeps the property of its parameters, and
  -- the mark of an empty note has it.
  pub note_text-masked : (entry : BackupEntry) → P (note_text t mask entry)
  unfolding note_text
  note_text-masked entry =
      let note = trim (or_else entry.note []) in
      let plain = or_mark (mask note) (masked note) in
      if_keeps P (not (is_full note)) mark (
        if_keeps P (text_eq entry.kind (codes "pre-restore"))
          (if_keeps P (starts_with note upload_prefix)
            (t_keeps (codes "noteBeforeUpload")
              (param (codes "name") (mask (drop (length upload_prefix) note)) ∷ []) (masked _, tt))
            (if_keeps P (starts_with note restore_prefix)
              (t_keeps (codes "noteBeforeRestore")
                (param (codes "id") (mask (drop (length restore_prefix) note)) ∷ []) (masked _, tt))
              plain))
          (if_keeps P (text_eq entry.kind (codes "scheduled"))
            (scheduled_kept note (scheduled_cadence note)) plain))
