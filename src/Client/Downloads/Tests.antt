-- ===== src/Client/Downloads/Tests.antt =====
-- File names of concrete headers.
use kiro_reverse_api.Prelude.{◌≡◌, refl, Option, none, some}
use kiro_reverse_api.Text.{Text, codes}
use kiro_reverse_api.Text.Trim.{trim}
use kiro_reverse_api.Client.Downloads.{filename_from}

abbrev kept : Text → Option Text
kept s = some s

backup_name :
    filename_from kept (some (codes "attachment; filename=\"kiro-backup-1.json\""))
    ≡ some (codes "kiro-backup-1.json")
unfolding filename_from trim
backup_name = refl

encoded :
    filename_from kept (some (codes "inline; FileName*=UTF-8''a.json; x")) ≡ some (codes "a.json")
unfolding filename_from trim
encoded = refl

prefix_alone : filename_from kept (some (codes "filename=utf-8''")) ≡ some (codes "utf-8''")
unfolding filename_from trim
prefix_alone = refl

unnamed : filename_from kept (some (codes "attachment; filename=\"\"")) ≡ none
unfolding filename_from trim
unnamed = refl
