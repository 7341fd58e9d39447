-- ===== src/Accounts/Expiry.antt =====
-- What the page says of the time left on a token and on a trial, in whole units.
use kiro_reverse_api.Prelude.{
  ℕ, zero, suc, ◌+◌, ◌-◌, ◌*◌, ◌/◌, ◌≤◌, ◌<◌, ◌≡◌, inl, inr, refl, Option, none, some,
  if◌then◌else◌, arith, ltb, leb, ltb→lt, leb→le, Bool-cases,
}
use kiro_reverse_api.Prelude.Int.{ℤ, pos, negsuc, neg_ℕ, is_zero, minus_ℤ, minus_ℕ}

pub data TokenExpiry : Type 0 where
  no_expiry token_expired : TokenExpiry
  minutes hours days : ℕ → TokenExpiry

abbrev token_left : ℕ → TokenExpiry
token_left diff =
    if ltb diff 3600
    then minutes (diff / 60)
    else if ltb diff 86400
    then hours (diff / 3600)
    else days (diff / 86400)

abbrev token_diff : ℤ → TokenExpiry
token_diff (pos zero) = token_expired
token_diff (pos (suc n)) = token_left (suc n)
token_diff (negsuc n) = token_expired

unfoldable pub token_expiry : ℤ → ℤ → TokenExpiry
token_expiry expires_at now =
    if is_zero expires_at then no_expiry else token_diff (minus_ℤ expires_at now)

pub data TrialExpiry : Type 0 where
  trial_expired today : TrialExpiry
  in_days : ℕ → TrialExpiry

abbrev day_ms : ℕ
day_ms = 86400000

abbrev thousandfold : ℤ → ℤ
thousandfold (pos n) = pos (n * 1000)
thousandfold (negsuc n) = negsuc (n * 1000 + 999)

-- `Math.ceil(z / DAY_MS)`
abbrev pub ceil_days : ℤ → ℤ
ceil_days (pos n) = pos ((n + 86399999) / day_ms)
ceil_days (negsuc n) = neg_ℕ (suc n / day_ms)

abbrev trial_days : ℤ → Option TrialExpiry
trial_days (negsuc n) = some trial_expired
trial_days (pos zero) = some today
trial_days (pos (suc n)) = if leb (suc n) 7 then some (in_days (suc n)) else none

unfoldable pub trial_expiry : ℤ → ℤ → Option TrialExpiry
trial_expiry trial_expires_at now_ms =
    if is_zero trial_expires_at
    then none
    else trial_days (ceil_days (minus_ℤ (thousandfold trial_expires_at) now_ms))

-- What a label says of `left` seconds.
abbrev pub Says : TokenExpiry → ℕ → Type 0
Says no_expiry left = ⊥
Says token_expired left = left ≡ 0
Says (minutes n) left = (n < 60) × (n * 60 ≤ left) × (left < suc n * 60)
Says (hours n) left = (0 < n) × (n < 24) × (n * 3600 ≤ left) × (left < suc n * 3600)
Says (days n) left = (0 < n) × (n * 86400 ≤ left) × (left < suc n * 86400)

token_left-Says : (left : ℕ) → Says (token_left left) left
token_left-Says left = elim (Bool-cases (ltb left 3600)) [
  | inl h ↦
      let small : left < 3600 = ltb→lt left 3600 h in rw h (omega arith, omega arith, omega arith)
  | inr h ↦
      let large : 3600 ≤ left = ground arith in
      elim (Bool-cases (ltb left 86400)) [
        | inl k ↦
            let small : left < 86400 = ltb→lt left 86400 k in
            rw (h, k) (omega arith, omega arith, omega arith, omega arith)
        | inr k ↦
            let day : 86400 ≤ left = ground arith in
            rw (h, k) (omega arith, omega arith, omega arith)
      ]
]

token_diff-left : (left : ℕ) → Says (token_diff (pos left)) left
token_diff-left zero = refl
token_diff-left (suc n) = token_left-Says (suc n)

token_diff-over : (over : ℕ) → Says (token_diff (neg_ℕ over)) 0
token_diff-over zero = refl
token_diff-over (suc n) = refl

token_diff-Says : (e now : ℕ) → Says (token_diff (minus_ℕ e now)) (e - now)
unfolding minus_ℕ
token_diff-Says e now = elim (Bool-cases (ltb e now)) [
  | inl h ↦
      let none_left : e - now ≡ 0 = ground arith in rw (h, none_left) (token_diff-over (now - e))
  | inr h ↦ rw h (token_diff-left (e - now))
]

-- The label of a token tells the whole minutes, hours or days that are left, in the largest unit
-- that is not over: fewer than 60 minutes, from 1 to 23 hours, or at least a day; an expired token
-- has nothing left. The token has an expiry.
pub token_expiry-Says :
    (expires_at now : ℕ)
    → 0 < expires_at
    → Says (token_expiry (pos expires_at) (pos now)) (expires_at - now)
unfolding token_expiry
token_expiry-Says zero now h = omega (arith, h)
token_expiry-Says (suc e) now h = token_diff-Says (suc e) now

-- What a label says of a trial that ends at `end`, seen at `now`.
abbrev pub TrialSays : Option TrialExpiry → ℕ → ℕ → Type 0
TrialSays (some trial_expired) end now = end + day_ms ≤ now
TrialSays (some today) end now = (end ≤ now) × (now < end + day_ms)
TrialSays (some (in_days n)) end now =
    (0 < n) × (n ≤ 7) × (now + (n - 1) * day_ms < end) × (end ≤ now + n * day_ms)
TrialSays none end now = now + 7 * day_ms < end

trial_left :
    (q end now d : ℕ)
    → q ≡ (d + 86399999) / day_ms
    → now + d ≡ end
    → TrialSays (trial_days (pos q)) end now
trial_left zero end now d e f = (omega (arith, e, f), omega (arith, e, f))
trial_left (suc q) end now d e f = elim (Bool-cases (leb (suc q) 7)) [
  | inl h ↦
      let few : suc q ≤ 7 = leb→le (suc q) 7 h in
      rw h (omega arith, few, omega (arith, e, f), omega (arith, e, f))
  | inr h ↦ let many : 7 < suc q = ground arith in rw h (omega (arith, e, f, many))
]

trial_over :
    (q end now d : ℕ) → q ≡ d / day_ms → end + d ≡ now → TrialSays (trial_days (neg_ℕ q)) end now
trial_over zero end now d e f = (omega (arith, e, f), omega (arith, e, f))
trial_over (suc q) end now d e f = omega (arith, e, f)

ceil_days-neg : (d : ℕ) → ceil_days (neg_ℕ d) ≡ neg_ℕ (d / day_ms)
ceil_days-neg zero = refl
ceil_days-neg (suc d) = refl

trial_days-TrialSays : (end now : ℕ) → TrialSays (trial_days (ceil_days (minus_ℕ end now))) end now
unfolding minus_ℕ
trial_days-TrialSays end now = elim (Bool-cases (ltb end now)) [
  | inl h ↦
      rw (h, ceil_days-neg (now - end))
        (trial_over ((now - end) / day_ms) end now (now - end) refl (ground arith))
  | inr h ↦
      rw h (trial_left ((end - now + 86399999) / day_ms) end now (end - now) refl (ground arith))
]

-- The label of a trial tells the days that are left, rounded up and 7 at most; "today" stands from
-- the end on for a day, "expired" after that day, and no label before the last 7 days. The trial
-- has an end, in seconds, and the time is in milliseconds.
pub trial_expiry-TrialSays :
    (trial_expires_at now_ms : ℕ)
    → 0 < trial_expires_at
    → TrialSays (trial_expiry (pos trial_expires_at) (pos now_ms)) (trial_expires_at * 1000) now_ms
unfolding trial_expiry
trial_expiry-TrialSays zero now h = omega (arith, h)
trial_expiry-TrialSays (suc e) now h = trial_days-TrialSays (suc e * 1000) now
