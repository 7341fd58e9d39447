-- ===== src/Settings.antt =====
-- ui/src/features/settings/lib: the logic behind the cards of the settings page.
pub mod Draft
pub mod Mappings
pub mod Regex
pub mod Proxy
pub mod PromptFilter
