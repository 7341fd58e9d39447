-- ===== src/Settings/Proxy/Pieces.antt =====
-- Cutting a text at a sign (ui/src/features/settings/lib/proxy-url.ts) that joined its parts.
use kiro_reverse_api.Prelude.{
  ℕ, ◌≡◌, refl, Bool, true, false, [], ◌∷◌, ◌++◌, none, some, any, or_parts,
}
use kiro_reverse_api.Text.{Text}
use kiro_reverse_api.Settings.Proxy.Cuts.{cut_first, cut_last}

module _ (p : ℕ → Bool) where
  pub cut_first-none : (s : Text) → any p s ≡ false → cut_first p s ≡ none
  cut_first-none [] h = refl
  cut_first-none (c ∷ s) h =
      let (a, b) = or_parts (p c) (any p s) h in rw (a, cut_first-none s b) refl

  pub cut_first-append :
      (a : Text) (c : ℕ) (b : Text)
      → any p a ≡ false
      → p c ≡ true
      → cut_first p (a ++ c ∷ b) ≡ some (a, b)
  cut_first-append [] c b h k = rw k refl
  cut_first-append (d ∷ a) c b h k =
      let (e, f) = or_parts (p d) (any p a) h in rw (e, cut_first-append a c b f k) refl

  pub cut_last-none : (s : Text) → any p s ≡ false → cut_last p s ≡ none
  cut_last-none [] h = refl
  cut_last-none (c ∷ s) h =
      let (a, b) = or_parts (p c) (any p s) h in rw (a, cut_last-none s b) refl

  pub cut_last-append :
      (a : Text) (c : ℕ) (b : Text)
      → any p b ≡ false
      → p c ≡ true
      → cut_last p (a ++ c ∷ b) ≡ some (a, b)
  cut_last-append [] c b h k = rw (cut_last-none b h, k) refl
  cut_last-append (d ∷ a) c b h k = rw (cut_last-append a c b h k) refl
