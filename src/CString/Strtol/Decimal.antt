-- ===== src/CString/Strtol/Decimal.antt =====
-- strtol of ucore_os/libs/string.c on numbers in base 10.
use dora_aos2019_homework.Prelude.{
  ℕ, zero, suc, ◌+◌, ◌*◌, ◌^◌, ◌<◌, ◌≤◌, ◌≡◌, refl, ap, ◌||◌, ◌∙◌, Bool, true, false, none, some,
  List, [], ◌∷◌, length, ◌==◌, arith, ltb,
}
use dora_aos2019_homework.Prelude.Int.{pos}
use dora_aos2019_homework.Memory.{Memory}
use dora_aos2019_homework.CString.Strtol.{
  skip_blanks, read_sign, read_prefix, digit_of, digit_in, digits, read_digits, parsed, with_sign,
  sign_result, strtol_at, strtol,
}

-- The characters of the decimal digits `ds` stand at `s`, and behind them one that is no digit.
unfoldable pub DigitsAt : Memory → ℕ → List ℕ → Type 0
DigitsAt m s [] = digit_in 10 (digit_of (m s)) ≡ none
DigitsAt m s (d ∷ ds) = (d < 10) × ((m s ≡ 48 + d) × DigitsAt m (s + 1) ds)

-- The number that the digits write, behind those that make `val`.
unfoldable pub decimal : ℕ → List ℕ → ℕ
decimal val [] = val
decimal val (d ∷ ds) = decimal (val * 10 + d) ds

digit-decimal : (d : ℕ) → d < 10 → digit_in 10 (digit_of (48 + d)) ≡ some d
unfolding digit_in digit_of
digit-decimal d h = ground arith

decimal_grows : (val : ℕ) (ds : List ℕ) → val ≤ decimal val ds
unfolding decimal
decimal_grows val [] = omega arith
decimal_grows val (d ∷ ds) = omega (arith, decimal_grows (val * 10 + d) ds)

read_digits_lem :
    (n s val : ℕ) (ds : List ℕ) (m : Memory)
    → DigitsAt m s ds
    → length ds < n
    → decimal val ds < 2 ^ 31
    → read_digits n 10 s val m ≡ digits (decimal val ds) (s + length ds)
unfolding read_digits DigitsAt decimal
read_digits_lem zero s val ds m at h w = ground arith
read_digits_lem (suc n) s val [] m at h w = rw (at, read_digits) (ground arith)
read_digits_lem (suc n) s val (d ∷ ds) m at h w =
    let c : digit_in 10 (digit_of (m s)) ≡ some d =
      ap (λ x. digit_in 10 (digit_of x)) at.1.0 ∙ digit-decimal d at.0 in
    let fits : ltb (val * 10 + d) (2 ^ 31) ≡ true =
      ground (arith, decimal_grows (val * 10 + d) ds) in
    let ih = read_digits_lem n (s + 1) (val * 10 + d) ds m at.1.1 (omega (arith, h)) w in
    rw (c, fits, read_digits) (ih ∙ ap (digits (decimal (val * 10 + d) ds)) (omega arith))

-- `k` blanks stand at `s`, and none behind them.
unfoldable pub BlanksAt : Memory → ℕ → ℕ → Type 0
BlanksAt m s zero = ((m s == 32 || m s == 9) ≡ false)
BlanksAt m s (suc k) = ((m s == 32 || m s == 9) ≡ true) × BlanksAt m (s + 1) k

skip_blanks_lem :
    (n s k : ℕ) (m : Memory) → BlanksAt m s k → k < n → skip_blanks n s m ≡ some (s + k)
unfolding skip_blanks BlanksAt
skip_blanks_lem zero s k m b h = ground arith
skip_blanks_lem (suc n) s zero m b h = ground arith
skip_blanks_lem (suc n) s (suc k) m b h = ground (arith, skip_blanks_lem n (s + 1) k m b.1)

-- A number in base 10, with or without a minus in front.
abbrev pub NumberAt : Memory → ℕ → Bool → List ℕ → Type 0
NumberAt m s true ds = (m s ≡ 45) × DigitsAt m (s + 1) ds
NumberAt m s false ds = (0 < length ds) × DigitsAt m s ds

abbrev pub sign_length : Bool → ℕ
sign_length true = 1
sign_length false = 0

strtol_at_lem :
    (fuel s : ℕ) (minus : Bool) (ds : List ℕ) (m : Memory)
    → NumberAt m s minus ds
    → length ds < fuel
    → decimal 0 ds < 2 ^ 31
    → strtol_at fuel 10 s m
      ≡ parsed (with_sign minus (decimal 0 ds)) (s + sign_length minus + length ds)
unfolding strtol_at read_sign read_prefix DigitsAt
strtol_at_lem fuel s true ds m (sign, at) h w =
    rw sign (rw (read_digits_lem fuel (s + 1) 0 ds m at h w) refl)
strtol_at_lem fuel s false [] m (some_digit, at) h w = absurd (omega arith)
strtol_at_lem fuel s false (d ∷ ds) m (some_digit, at) h w =
    let plain : read_sign s m ≡ (false, s) = ground (arith, at) in
    let start : s ≡ s + 0 = omega arith in
    ap (λ (r : Bool × ℕ). sign_result r.0 (read_digits fuel 10 r.1 0 m)) plain
    ∙ ap (sign_result false) (read_digits_lem fuel s 0 (d ∷ ds) m at h w)
    ∙ ap (λ t. parsed (pos (decimal 0 (d ∷ ds))) (t + length (d ∷ ds))) start

-- strtol in base 10 of a number below 2^31 behind k blanks, with more steps than there are blanks and
-- digits, returns the number, negated if it has a minus, and the place behind its last digit.
pub strtol_lem :
    (fuel s k : ℕ) (minus : Bool) (ds : List ℕ) (m : Memory)
    → BlanksAt m s k
    → NumberAt m (s + k) minus ds
    → k < fuel
    → length ds < fuel
    → decimal 0 ds < 2 ^ 31
    → strtol fuel s 10 m
      ≡ parsed (with_sign minus (decimal 0 ds)) (s + k + sign_length minus + length ds)
unfolding strtol
strtol_lem fuel s k minus ds m b at hk h w =
    rw (skip_blanks_lem fuel s k m b hk, strtol) (strtol_at_lem fuel (s + k) minus ds m at h w)
