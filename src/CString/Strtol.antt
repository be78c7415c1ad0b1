-- ===== src/CString/Strtol.antt =====
-- Numbers in text: strtol of ucore_os/libs/string.c. `long` has 32 bits, and a sum of the
-- digits beyond it is a result of its own. The loops run on fuel.
pub mod Decimal
use dora_aos2019_homework.Prelude.{
  ℕ, zero, suc, ◌+◌, ◌-◌, ◌*◌, ◌^◌, Bool, true, false, ◌&&◌, ◌||◌, Option, none, some, ltb, leb,
  ◌==◌, if◌then◌else◌,
}
use dora_aos2019_homework.Prelude.Int.{ℤ, pos, negsuc}
use dora_aos2019_homework.Memory.{Memory}

-- `while (*s == ' ' || *s == '\t')`
unfoldable pub skip_blanks : ℕ → ℕ → Memory → Option ℕ
skip_blanks zero s m = none
skip_blanks (suc n) s m =
    let rest = skip_blanks n (s + 1) m in if m s == 32 || m s == 9 then rest else some s

-- Whether the sign is a minus, and the place behind it.
unfoldable pub read_sign : ℕ → Memory → Bool × ℕ
read_sign s m =
    if m s == 43 then (false, s + 1) else (if m s == 45 then (true, s + 1) else (false, s))

-- The base that the prefix "0x" or "0" selects, and the place behind it.
unfoldable pub read_prefix : ℕ → ℕ → Memory → ℕ × ℕ
read_prefix base s m =
    if (base == 0 || base == 16) && (m s == 48 && m (s + 1) == 120)
    then (16, s + 2)
    else (if base == 0 && m s == 48 then (8, s + 1) else (if base == 0 then (10, s) else (base, s)))

-- The value of a digit or letter.
unfoldable pub digit_of : ℕ → Option ℕ
digit_of c =
    if leb 48 c && leb c 57
    then some (c - 48)
    else (if leb 97 c && leb c 122
        then some (c - 97 + 10)
        else (if leb 65 c && leb c 90 then some (c - 65 + 10) else none))

-- The digit at hand, if it is one of the base.
unfoldable pub digit_in : ℕ → Option ℕ → Option ℕ
digit_in base none = none
digit_in base (some dig) = if leb base dig then none else some dig

-- How the loop over the digits ends: out of fuel, with a value beyond the largest long, which C leaves
-- undefined, or with the value and the place behind the digits.
pub data Digits : Type 0 where
  cut_off : Digits
  too_large : Digits
  digits : ℕ → ℕ → Digits

unfoldable pub read_digits : ℕ → ℕ → ℕ → ℕ → Memory → Digits
unfolding digit_of digit_in
read_digits zero base s val m = cut_off
read_digits (suc n) base s val m = elim (digit_in base (digit_of (m s))) [
  | none ↦ digits val s
  | some dig ↦
      let rest = read_digits n base (s + 1) (val * base + dig) m in
      if ltb (val * base + dig) (2 ^ 31) then rest else too_large
]

-- `neg ? -val : val`
abbrev pub with_sign : Bool → ℕ → ℤ
with_sign true zero = pos 0
with_sign true (suc n) = negsuc n
with_sign false val = pos val

-- What strtol does: it runs out of fuel, its sum overflows, or it returns a long and sets `*endptr`.
pub data Parsed : Type 0 where
  out_of_fuel : Parsed
  overflow : Parsed
  parsed : ℤ → ℕ → Parsed

abbrev pub sign_result : Bool → Digits → Parsed
sign_result neg cut_off = out_of_fuel
sign_result neg too_large = overflow
sign_result neg (digits val end) = parsed (with_sign neg val) end

-- The part behind the blanks.
unfoldable pub strtol_at : ℕ → ℕ → ℕ → Memory → Parsed
unfolding read_sign read_prefix read_digits
strtol_at fuel base s m =
    let (neg, s') = read_sign s m in
    let (base', s'') = read_prefix base s' m in sign_result neg (read_digits fuel base' s'' 0 m)

unfoldable pub strtol : ℕ → ℕ → ℕ → Memory → Parsed
unfolding skip_blanks strtol_at
strtol fuel s base m = elim (skip_blanks fuel s m) [
  | none ↦ out_of_fuel
  | some s' ↦ strtol_at fuel base s' m
]
