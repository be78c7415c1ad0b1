-- ===== src/Printfmt.antt =====
-- Formatted output: ucore_os/libs/printfmt.c. What goes to `putch` is the list of the characters.
pub mod Decimal
mod Tests
use dora_aos2019_homework.Prelude.{
  ℕ, zero, suc, ◌+◌, ◌-◌, ◌/◌, ◌%◌, Option, none, some, List, [], ◌∷◌, ◌++◌, ltb, if◌then◌else◌,
}

-- `"0123456789abcdef"[mod]`
abbrev pub digit_char : ℕ → ℕ
digit_char d = if ltb d 10 then 48 + d else 87 + d

-- `while (--width > 0) putch(padc, putdat, fd);`, with a negative width as 0.
unfoldable pub pad : ℕ → ℕ → List ℕ
pad zero padc = []
pad (suc zero) padc = []
pad (suc (suc n)) padc = padc ∷ pad (suc n) padc

abbrev pub put_last : Option (List ℕ) → ℕ → Option (List ℕ)
put_last none c = none
put_last (some cs) c = some (cs ++ c ∷ [])

-- The recursion of `printnum`, on fuel; `none` is fuel run out.
unfoldable pub print_digits : ℕ → ℕ → ℕ → ℕ → ℕ → Option (List ℕ)
unfolding pad
print_digits zero num base width padc = none
print_digits (suc n) num base width padc =
    let rest = print_digits n (num / base) base (width - 1) padc in
    put_last (if ltb num base then some (pad width padc) else rest) (digit_char (num % base))

-- `printnum`; the recursion is no deeper than the number.
unfoldable pub printnum : ℕ → ℕ → ℕ → ℕ → Option (List ℕ)
unfolding print_digits
printnum num base width padc = print_digits (suc num) num base width padc
