-- ===== src/Backups/Tests.antt =====
-- A legacy keep, a keep that is too large, and notes with their emails masked.
use kiro_reverse_api.Prelude.{◌≡◌, refl, true, false, List, [], ◌∷◌, some, none, ◌≢◌, All, arith}
use kiro_reverse_api.Prelude.Int.{pos}
use kiro_reverse_api.Text.{Text, codes}
use kiro_reverse_api.Text.Params.{Param}
use kiro_reverse_api.Text.Trim.{trim, trim_end, trim_start, is_space}
use kiro_reverse_api.Backups.{
  finite, clamp_keep, daily, hourly, ScheduleForm, CurrentForm, BackupSchedule, schedule_form,
  schedule_dirty, schedule_body, keep_max,
}
use kiro_reverse_api.Backups.Notes.{
  BackupEntry, note_text, is_not_a_backup_message, kind_label, kind_tone,
}

backups_run : Unit {0}
unfolding clamp_keep schedule_form schedule_dirty schedule_body keep_max note_text
    is_not_a_backup_message kind_label kind_tone trim trim_end trim_start is_space
backups_run = tt

abbrev legacy : BackupSchedule
legacy = record { enabled = some true; cadence = none; keep = some (pos 365) }

abbrev shown : ScheduleForm
shown = record { enabled = true; cadence = daily; keep = pos 365 }

form_of_legacy : (schedule_form legacy ≡ shown) × (keep_max 365 ≡ 365)
unfolding backups_run
form_of_legacy = (refl, refl)

clamps : clamp_keep (finite (pos 900) false) (pos 365) ≡ pos 200
unfolding backups_run
clamps = refl

rejects :
    (is_not_a_backup_message (codes " Unsupported Backup version 3 ") ≡ true)
    × (is_not_a_backup_message (codes "credential 12 missing id") ≡ true)
    × (is_not_a_backup_message (codes "backup schema mismatched") ≡ false)
unfolding backups_run
rejects = (refl, refl, refl)

abbrev edited : CurrentForm
edited = record { enabled = true; cadence = hourly; keep = some (finite (pos 364) true) }

-- No unit of the text is an at sign.
abbrev HasNoAt : Text → Type 0
HasNoAt s = All (λ c. c ≢ b'@') s

abbrev star_mask : Text → Text
star_mask s = codes "***"

stars : HasNoAt (codes "***")
stars = ground arith

abbrev translate : Text → List Param → Text
translate key [] = codes "text"
translate key (p ∷ ps) = p.value

translated :
    (key : Text) (ps : List Param) → All (λ p. HasNoAt p.value) ps → HasNoAt (translate key ps)
translated key [] h = ground arith
translated key (p ∷ ps) h = h.0

abbrev upload : BackupEntry
upload = record { kind = codes "pre-restore"; note = some (codes "upload a@b.json ") }

shown_note : note_text translate star_mask upload ≡ codes "***"
unfolding backups_run
shown_note = refl
