-- ===== src/Strings/Decimal.antt =====
-- `str(n)` of a natural number.
use bulk_processing_service.Base.{
  All, Text, [], ap, arith, codes, length, refl, suc, zero, ℕ, ◌%◌, ◌*◌, ◌++◌, ◌+◌, ◌-◌, ◌/◌, ◌<◌,
  ◌∙◌, ◌∷◌, ◌≡◌, ◌≤◌,
}
use mathlib.Core.Logic.{dite, dif_pos, dif_neg}
use mathlib.Core.WellFounded.{Acc}
use native.Mathlib.Bridge.{le_prop}
use native.Mathlib.Decide.{dec_lt}

below : (k n : ℕ) → n < k → Acc ◌<◌ n
below zero n h = elim h [ ]
below (suc k) n h = Acc.intro n (λ m hm. below k m (omega arith))

tenth-lt : (n : ℕ) → 9 < n → n / 10 < n
tenth-lt n h = omega arith

-- The digits of `n`, in front of a text.
unfoldable pub digits_acc : (n : ℕ) → Acc ◌<◌ n → Text → Text
unfolding tenth-lt
digits_acc n (Acc.intro _ smaller) out =
    dite (dec_lt 9 n)
      (λ h. digits_acc (n / 10) (smaller (n / 10) (tenth-lt n h)) ((b'0' + n % 10) ∷ out))
      (λ _. (b'0' + n) ∷ out)

-- `str(n)`
unfoldable pub decimal : ℕ → Text
unfolding below digits_acc dec_lt
decimal n = digits_acc n (below (suc n) n (omega arith)) []

-- The number that a text of digits stands for, behind digits that stand for `acc`.
unfoldable pub digits_value : ℕ → Text → ℕ
digits_value acc [] = acc
digits_value acc (c ∷ t) = digits_value (acc * 10 + (c - b'0')) t

digits_value-digits_acc :
    (n : ℕ) (w : Acc ◌<◌ n) (out : Text) → digits_value 0 (digits_acc n w out) ≡ digits_value n out
unfolding digits_acc digits_value tenth-lt
digits_value-digits_acc n (Acc.intro _ smaller) out = elim (dec_lt 9 n) [
  | yes h ↦ rw (dif_pos (dec_lt 9 n) le_prop h) (
      digits_value-digits_acc (n / 10) (smaller (n / 10) (tenth-lt n h)) ((b'0' + n % 10) ∷ out)
      ∙ ap (λ v. digits_value v out) (omega arith))
  | no h ↦ rw (dif_neg (dec_lt 9 n) h) (ap (λ v. digits_value v out) (omega arith))
]

-- The text of a number stands for the number.
pub digits_value-decimal : (n : ℕ) → digits_value 0 (decimal n) ≡ n
unfolding decimal digits_value
digits_value-decimal n = digits_value-digits_acc n (below (suc n) n (omega arith)) []

pub digits_value-append :
    (v : ℕ) (s t : Text) → digits_value v (s ++ t) ≡ digits_value (digits_value v s) t
unfolding digits_value
digits_value-append v [] t = refl
digits_value-append v (c ∷ s) t = digits_value-append (v * 10 + (c - b'0')) s t

decimal_12 : decimal 4096 ≡ codes "4096"
unfolding decimal
decimal_12 = refl

abbrev pub IsDigit : ℕ → Type 0
IsDigit c = (b'0' ≤ c) × (c ≤ b'9')

AreDigits-digits_acc :
    (n : ℕ) (w : Acc ◌<◌ n) (out : Text) → All IsDigit out → All IsDigit (digits_acc n w out)
unfolding digits_acc tenth-lt
AreDigits-digits_acc n (Acc.intro _ smaller) out h = elim (dec_lt 9 n) [
  | yes lt ↦ rw (dif_pos (dec_lt 9 n) le_prop lt) (
      AreDigits-digits_acc (n / 10) (smaller (n / 10) (tenth-lt n lt)) ((b'0' + n % 10) ∷ out)
        ((omega arith, omega arith), h))
  | no ge ↦ rw (dif_neg (dec_lt 9 n) ge) ((omega arith, omega arith), h)
]

pub decimal-AreDigits : (n : ℕ) → All IsDigit (decimal n)
unfolding decimal
decimal-AreDigits n = AreDigits-digits_acc n (below (suc n) n (omega arith)) [] tt

some_digits : (n : ℕ) (w : Acc ◌<◌ n) (out : Text) → 1 ≤ length (digits_acc n w out)
unfolding digits_acc tenth-lt
some_digits n (Acc.intro _ smaller) out = elim (dec_lt 9 n) [
  | yes lt ↦
      rw (dif_pos (dec_lt 9 n) le_prop lt)
        (some_digits (n / 10) (smaller (n / 10) (tenth-lt n lt)) ((b'0' + n % 10) ∷ out))
  | no ge ↦ rw (dif_neg (dec_lt 9 n) ge) (omega arith)
]

pub length-decimal-positive : (n : ℕ) → 1 ≤ length (decimal n)
unfolding decimal
length-decimal-positive n = some_digits n (below (suc n) n (omega arith)) []
