-- ===== src/ApiKeys/Lockout.antt =====
-- The warning before an API key goes (ui/src/features/api/api-key-form.ts) and the keys that are
-- left.
use mathlib.Core.Path.{subst}
use kiro_reverse_api.Prelude.{
  ℕ, ◌+◌, ◌<◌, ◌≡◌, refl, ◌↔◌, Bool, true, false, ◌&&◌, List, [], ◌∷◌, arith, if◌then◌else◌, ◌==◌,
  All, Bool-cases, inl, inr,
}
use kiro_reverse_api.Text.{Text, text_eq}
use kiro_reverse_api.Text.Equality.{text_eq_iff}
use kiro_reverse_api.ApiKeys.{
  ApiKey, count_enabled_keys, find_key, target_enabled, would_lock_out_clients,
}

abbrev pub without_key : Text → List ApiKey → List ApiKey
without_key id [] = []
without_key id (k ∷ ks) = if text_eq k.id id then without_key id ks else k ∷ without_key id ks

-- The keys have identifiers of their own.
abbrev pub Distinct : List ApiKey → Type 0
Distinct [] = Unit
Distinct (k ∷ ks) = All (λ (l : ApiKey). text_eq l.id k.id ≡ false) ks × Distinct ks

abbrev enabled_count : ApiKey → ℕ
enabled_count k = if k.enabled then 1 else 0

count_cons :
    (k : ApiKey) (ks : List ApiKey)
    → count_enabled_keys (k ∷ ks) ≡ enabled_count k + count_enabled_keys ks
unfolding count_enabled_keys
count_cons k ks = elim (Bool-cases k.enabled) [
  | inl e ↦ ground (arith, e)
  | inr e ↦ ground (arith, e)
]

without_absent :
    (id : Text) (ks : List ApiKey)
    → All (λ (l : ApiKey). text_eq l.id id ≡ false) ks
    → without_key id ks ≡ ks
without_absent id [] h = refl
without_absent id (k ∷ ks) h = rw (h.0, without_absent id ks h.1)

abbrev target_count : Text → List ApiKey → ℕ
target_count id ks = if target_enabled (find_key id ks) then 1 else 0

-- Taking a key away takes away one enabled key, if it was enabled.
count-without_key :
    (id : Text) (ks : List ApiKey)
    → Distinct ks
    → count_enabled_keys ks ≡ target_count id ks + count_enabled_keys (without_key id ks)
count-without_key id [] d = omega arith
count-without_key id (k ∷ ks) d = elim (Bool-cases (text_eq k.id id)) [
  | inl e ↦
      let same : k.id ≡ id = (text_eq_iff k.id id).0 e in
      let gone : without_key id ks ≡ ks =
        subst (λ i. without_key i ks ≡ ks) same (without_absent k.id ks d.0) in
      rw (e, gone) (count_cons k ks)
  | inr e ↦ rw e (
      omega (arith, count_cons k ks, count_cons k (without_key id ks), count-without_key id ks d.1))
]

-- The warning appears exactly when API keys are required, there is an enabled one, and none is left
-- once the key has been removed. The keys have different identifiers.
pub would_lock_out_clients-without_key :
    (ks : List ApiKey) (id : Text) (require_api_key : Bool)
    → Distinct ks
    → (would_lock_out_clients ks id require_api_key ≡ true) ↔ (
        (require_api_key ≡ true)
        × (0 < count_enabled_keys ks)
        × (count_enabled_keys (without_key id ks) ≡ 0))
unfolding would_lock_out_clients
would_lock_out_clients-without_key ks id false d = (λ e. absurd (cc), λ e. absurd (ground arith))
would_lock_out_clients-without_key ks id true d =
    lock_iff (target_enabled (find_key id ks)) (count_enabled_keys ks)
      (count_enabled_keys (without_key id ks)) (count-without_key id ks d)
  where
    lock_iff :
        (b : Bool) (n m : ℕ)
        → n ≡ (if b then 1 else 0) + m
        → ((b && n == 1) ≡ true) ↔ ((true ≡ true) × (0 < n) × (m ≡ 0))
    lock_iff true n m h = ground arith
    lock_iff false n m h = ground arith
