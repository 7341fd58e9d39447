-- ===== src/ApiKeys/Form.antt =====
-- The outcomes of the API key dialog (ui/src/features/api/api-key-form.ts).
use native.Mathlib.Nat.{div-add-mod', mul-mod_left}
use kiro_reverse_api.Prelude.{
  ℕ, ◌*◌, ◌/◌, ◌%◌, ◌≡◌, refl, sym, ap, ◌∙◌, Bool, true, false, ◌&&◌, not, Option, none, some,
  if◌then◌else◌, arith,
}
use kiro_reverse_api.Prelude.Int.{pos, negsuc}
use kiro_reverse_api.Text.Trim.{trim}
use kiro_reverse_api.ApiKeys.{
  FormNumber, not_finite, units, ApiKeyFormValues, token_limit_field, credit_limit_field,
  ApiKeyFormResult, accepted, invalid_limits, is_positive_or_zero, is_whole, limit_of,
  parse_api_key_form,
}

-- A token limit is a whole number from 0 on, and a credit limit any number from 0 on.
abbrev pub IsTokenLimit : ℕ → FormNumber → Type 0
IsTokenLimit unit l = (k : ℕ) × (l ≡ units (pos (k * unit)))

abbrev pub IsCreditLimit : FormNumber → Type 0
IsCreditLimit l = (n : ℕ) × (l ≡ units (pos n))

-- The number of a field, where an empty one stands for 0.
abbrev pub entered : Option FormNumber → FormNumber
entered none = units (pos 0)
entered (some l) = l

-- What each outcome says of the values: the data is theirs and both limits are good, or the field
-- that is named is the first bad one.
abbrev pub Explains : ℕ → ApiKeyFormValues → ApiKeyFormResult → Type 0
Explains unit values (accepted d) =
    (d.name ≡ trim values.name)
    × (d.key ≡ trim values.key)
    × (d.token_limit ≡ entered values.token_limit)
    × (d.credit_limit ≡ entered values.credit_limit)
    × IsTokenLimit unit d.token_limit
    × IsCreditLimit d.credit_limit
Explains unit values (invalid_limits token_limit_field) =
    ¬ IsTokenLimit unit (entered values.token_limit)
Explains unit values (invalid_limits credit_limit_field) =
    IsTokenLimit unit (entered values.token_limit) × ¬ IsCreditLimit (entered values.credit_limit)

limit_of-entered : (o : Option FormNumber) → limit_of o ≡ entered o
limit_of-entered none = refl
limit_of-entered (some l) = refl

-- The tests of the code decide what a good limit is.
whole_limit :
    (unit : ℕ) (l : FormNumber)
    → (is_positive_or_zero l && is_whole unit l) ≡ true
    → IsTokenLimit unit l
whole_limit unit not_finite h = absurd (cc)
whole_limit unit (units (pos n)) h =
    let whole : n % unit ≡ 0 = ground (arith, h) in
    let parts : n ≡ n / unit * unit = omega (arith, div-add-mod' n unit, whole) in
    (n / unit, ap (λ k. units (pos k)) parts)
whole_limit unit (units (negsuc n)) h = absurd (cc)

limit_whole :
    (unit : ℕ) (l : FormNumber)
    → IsTokenLimit unit l
    → (is_positive_or_zero l && is_whole unit l) ≡ true
limit_whole unit l (k, e) =
    let whole : k * unit % unit ≡ 0 = mul-mod_left k unit in rw e (ground (arith, whole))

IsCreditLimit-good : (l : FormNumber) → is_positive_or_zero l ≡ true → IsCreditLimit l
IsCreditLimit-good not_finite h = absurd (cc)
IsCreditLimit-good (units (pos n)) h = (n, refl)
IsCreditLimit-good (units (negsuc n)) h = absurd (cc)

good_credit_limit : (l : FormNumber) → IsCreditLimit l → is_positive_or_zero l ≡ true
good_credit_limit l (n, e) = rw e refl

-- The dialog accepts values exactly when the token limit is a whole number from 0 on and the credit
-- limit a number from 0 on, an empty field being 0; it takes those limits, and name and key trimmed.
-- Otherwise it names the first limit that is not so, the token limit before the credit limit.
pub parse_api_key_form-Explains :
    (unit : ℕ) (values : ApiKeyFormValues) → Explains unit values (parse_api_key_form unit values)
unfolding parse_api_key_form
parse_api_key_form-Explains unit values =
    explained (limit_of values.token_limit) (limit_of values.credit_limit)
      (is_positive_or_zero (limit_of values.token_limit)
        && is_whole unit (limit_of values.token_limit))
      (is_positive_or_zero (limit_of values.credit_limit)) (limit_of-entered values.token_limit)
      (limit_of-entered values.credit_limit) refl refl
  where
    explained :
        (t c : FormNumber) (a b : Bool)
        → t ≡ entered values.token_limit
        → c ≡ entered values.credit_limit
        → (is_positive_or_zero t && is_whole unit t) ≡ a
        → is_positive_or_zero c ≡ b
        → Explains unit values (
            if not a
            then invalid_limits token_limit_field
            else if not b
            then invalid_limits credit_limit_field
            else accepted (record {
              name = trim values.name;
              key = trim values.key;
              token_limit = t;
              credit_limit = c;
            }))
    explained t c false b p q e f = λ good.
        let bad : true ≡ false = sym (limit_whole unit t (good.0, p ∙ good.1)) ∙ e in absurd (cc)
    explained t c true false p q e f =
        let whole = whole_limit unit t e in
        (
          (whole.0, sym p ∙ whole.1),
          λ good.
              let bad : true ≡ false = sym (good_credit_limit c (good.0, q ∙ good.1)) ∙ f in
              absurd (cc),
        )
    explained t c true true p q e f =
        (refl, refl, p, q, whole_limit unit t e, IsCreditLimit-good c f)
