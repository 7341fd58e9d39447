-- ===== src/Text/Params.antt =====
-- The parameters of a translated message (`TParams` of ui/src/lib/i18n/index.tsx), as texts.
use kiro_reverse_api.Text.{Text}

pub record Param : Type 0 where
  pub name : Text
  pub value : Text

abbrev pub param : Text → Text → Param
param name value = record { name = name; value = value }
