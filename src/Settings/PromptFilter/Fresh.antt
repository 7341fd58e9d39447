-- ===== src/Settings/PromptFilter/Fresh.antt =====
-- `newRule` of ui/src/features/settings/lib/prompt-filter.ts ends with an id that no rule has.
use kiro_reverse_api.Prelude.{
  ℕ, zero, suc, ◌+◌, ◌≤◌, ◌<◌, ◌≡◌, ◌≢◌, refl, sym, ◌∙◌, ap, Bool, true, false, ◌&&◌, List, [], ◌∷◌,
  Bool-cases, inl, inr, keep, not, length, arith,
}
use kiro_reverse_api.Text.{Text, codes, text_eq}
use kiro_reverse_api.Text.Equality.{text_eq_iff, append_left}
use kiro_reverse_api.Text.Decimal.{print_ℕ, print_ℕ_inj}
use kiro_reverse_api.Settings.PromptFilter.{
  PromptFilterRuleType, PromptFilterRule, rule_id, is_used, next_stamp, new_rule,
}

rule_id_inj : (m n : ℕ) → rule_id m ≡ rule_id n → m ≡ n
rule_id_inj m n e = print_ℕ_inj m n (append_left (codes "rule-") (print_ℕ m) (print_ℕ n) e)

-- The `n` ids from this stamp on are all used.
abbrev pub all_used : List PromptFilterRule → ℕ → ℕ → Bool
all_used existing stamp zero = true
all_used existing stamp (suc n) =
    is_used existing (rule_id stamp) && all_used existing (suc stamp) n

-- The rules without those of one id.
abbrev drop_id : Text → List PromptFilterRule → List PromptFilterRule
drop_id id rules = keep (λ rule. not (text_eq rule.id id)) rules

drop_id-length :
    (id : Text) (rules : List PromptFilterRule) → length (drop_id id rules) ≤ length rules
drop_id-length id [] = omega arith
drop_id-length id (r ∷ rules) = elim (Bool-cases (text_eq r.id id)) [
  | inl e ↦ rw e (omega (arith, drop_id-length id rules))
  | inr e ↦ rw e (omega (arith, drop_id-length id rules))
]

drop_id-shorter :
    (id : Text) (rules : List PromptFilterRule)
    → is_used rules id ≡ true
    → length (drop_id id rules) < length rules
drop_id-shorter id [] h = absurd (cc)
drop_id-shorter id (r ∷ rules) h = elim (Bool-cases (text_eq r.id id)) [
  | inl e ↦ rw e (omega (arith, drop_id-length id rules))
  | inr e ↦
      let later : is_used rules id ≡ true = rw e at h in
      rw e (omega (arith, drop_id-shorter id rules later))
]

-- Another id is used in what is left if it was before.
drop_id-is_used :
    (id other : Text) (rules : List PromptFilterRule)
    → id ≢ other
    → is_used (drop_id id rules) other ≡ is_used rules other
drop_id-is_used id other [] n = refl
drop_id-is_used id other (r ∷ rules) n = elim (Bool-cases (text_eq r.id id)) [
  | inl e ↦
      let miss : text_eq r.id other ≡ false = elim (Bool-cases (text_eq r.id other)) [
        | inl f ↦ absurd (n (sym ((text_eq_iff r.id id).0 e) ∙ (text_eq_iff r.id other).0 f))
        | inr f ↦ f
      ] in
      rw (e, miss) (drop_id-is_used id other rules n)
  | inr e ↦ rw (e, drop_id-is_used id other rules n) refl
]

-- Only ids of these rules can be used from this stamp on.
abbrev Agrees : List PromptFilterRule → List PromptFilterRule → ℕ → Type 0
Agrees existing rules stamp =
    (k : ℕ) → stamp ≤ k → is_used existing (rule_id k) ≡ is_used rules (rule_id k)

record EndsFresh (existing : List PromptFilterRule) (fuel stamp last : ℕ) : Type 0 where
  steps : ℕ
  reached : last ≡ stamp + steps
  bounded : steps ≤ fuel
  skipped : all_used existing stamp steps ≡ true
  free : is_used existing (rule_id last) ≡ false

next_stamp-EndsFresh :
    (fuel : ℕ) (existing rules : List PromptFilterRule) (stamp : ℕ)
    → length rules ≤ fuel
    → Agrees existing rules stamp
    → EndsFresh existing fuel stamp (next_stamp fuel existing stamp)
next_stamp-EndsFresh zero existing [] stamp l h = record {
  steps = 0;
  reached = omega arith;
  bounded = omega arith;
  skipped = refl;
  free = h stamp (omega arith);
}
next_stamp-EndsFresh zero existing (r ∷ rules) stamp l h = absurd (omega (arith, l))
next_stamp-EndsFresh (suc fuel) existing rules stamp l h =
    elim (Bool-cases (is_used existing (rule_id stamp))) [
      | inl u ↦
          let less = drop_id-shorter (rule_id stamp) rules (sym (h stamp (omega arith)) ∙ u) in
          let agrees : Agrees existing (drop_id (rule_id stamp) rules) (suc stamp) = λ k le.
            h k (omega (arith, le))
            ∙ sym (
                drop_id-is_used (rule_id stamp) (rule_id k) rules
                  (λ e. omega (arith, le, rule_id_inj stamp k e))) in
          let r =
            next_stamp-EndsFresh fuel existing (drop_id (rule_id stamp) rules) (suc stamp)
              (omega (arith, l, less)) agrees in
          rw u (record {
            steps = suc r.steps;
            reached = omega (arith, r.reached);
            bounded = omega (arith, r.bounded);
            skipped = rw u r.skipped;
            free = r.free;
          })
      | inr u ↦ rw u (record {
        steps = 0;
        reached = omega arith;
        bounded = omega arith;
        skipped = refl;
        free = u;
      })
    ]

-- The search for the id of a new rule ends after at most as many steps as there are rules. The id
-- is the first one from the current time on that no rule has: all those before it are used.
pub new_rule-first_free :
    (type : PromptFilterRuleType) (existing : List PromptFilterRule) (now : ℕ)
    → (is_used existing (new_rule type existing now).id ≡ false)
      × ((steps : ℕ) × (steps ≤ length existing)
          × ((new_rule type existing now).id ≡ rule_id (now + steps))
          × (all_used existing now steps ≡ true))
unfolding new_rule
new_rule-first_free type existing now =
    let r =
      next_stamp-EndsFresh (length existing) existing existing now (omega arith) (λ k l. refl) in
    (r.free, (r.steps, r.bounded, ap rule_id r.reached, r.skipped))
