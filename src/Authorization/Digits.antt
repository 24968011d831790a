-- ===== src/Authorization/Digits.antt =====
-- `String(n)` in src/authorization/emitter.mjs: sixteen digits are enough for a safe integer.
use billing_validation_contr.Common.{ℕ, true, zero, suc, ◌/◌, ◌^◌, ◌≤◌, ◌<◌, ◌≡◌, refl, arith, ltb}
use billing_validation_contr.Js.{max_safe_integer}
use billing_validation_contr.Authorization.Emitter.{digits_text, decimal_text}

-- With fuel for its digits a number's text is the same with any more.
digits_text-enough :
    (f g n : ℕ) → f ≤ g → n < 10 ^ suc f → digits_text (suc g) n ≡ digits_text (suc f) n
digits_text-enough zero g n more h =
    let small : ltb n 10 ≡ true = ground arith in rw (digits_text, small) refl
digits_text-enough (suc f) zero n more h = absurd (omega arith)
digits_text-enough (suc f) (suc g) n more h =
    let fewer : n / 10 < 10 ^ suc f = omega arith in
    rw (digits_text, digits_text-enough f g (n / 10) (omega arith) fewer) refl

decimal_text-enough :
    (fuel n : ℕ) → 16 ≤ suc fuel → n ≤ max_safe_integer → digits_text (suc fuel) n ≡ decimal_text n
decimal_text-enough fuel n more h = digits_text-enough 15 fuel n (omega arith) (omega arith)
