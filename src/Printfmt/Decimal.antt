-- ===== src/Printfmt/Decimal.antt =====
-- Numbers that printnum (ucore_os/libs/printfmt.c) has printed in base 10 are read back by strtol
-- (ucore_os/libs/string.c).
use dora_aos2019_homework.Prelude.{
  ℕ, zero, suc, ◌+◌, ◌-◌, ◌*◌, ◌/◌, ◌%◌, ◌^◌, ◌<◌, ◌≡◌, refl, sym, ap, ap₂, ◌∙◌, inl, inr, subst,
  false, ◌||◌, some, List, [], ◌∷◌, ◌++◌, append_assoc, length, length-append, ltb, ◌==◌, arith,
  Bool-cases,
}
use dora_aos2019_homework.Prelude.Int.{pos}
use dora_aos2019_homework.Memory.{Memory}
use dora_aos2019_homework.CString.StringAt.{StringAt}
use dora_aos2019_homework.CString.Strtol.{parsed, strtol, digit_of, digit_in}
use dora_aos2019_homework.CString.Strtol.Decimal.{DigitsAt, BlanksAt, decimal, strtol_lem}
use dora_aos2019_homework.Printfmt.{pad, digit_char, print_digits, printnum}

abbrev AllDigits : List ℕ → Type 0
AllDigits [] = Unit
AllDigits (d ∷ ds) = (d < 10) × AllDigits ds

abbrev chars : List ℕ → List ℕ
chars [] = []
chars (d ∷ ds) = (48 + d) ∷ chars ds

decimal-snoc : (val d : ℕ) (ds : List ℕ) → decimal val (ds ++ d ∷ []) ≡ decimal val ds * 10 + d
unfolding decimal
decimal-snoc val d [] = refl
decimal-snoc val d (e ∷ ds) = decimal-snoc (val * 10 + e) d ds

chars-snoc : (d : ℕ) (ds : List ℕ) → chars (ds ++ d ∷ []) ≡ chars ds ++ (48 + d) ∷ []
chars-snoc d [] = refl
chars-snoc d (e ∷ ds) = ap (λ xs. (48 + e) ∷ xs) (chars-snoc d ds)

AllDigits-snoc : (d : ℕ) (ds : List ℕ) → AllDigits ds → d < 10 → AllDigits (ds ++ d ∷ [])
AllDigits-snoc d [] a h = (h, tt)
AllDigits-snoc d (e ∷ ds) (b, a) h = (b, AllDigits-snoc d ds a h)

pad-suc : (width padc : ℕ) → (k : ℕ) × (pad width padc ≡ pad (suc k) padc)
unfolding pad
pad-suc zero padc = (0, refl)
pad-suc (suc k) padc = (k, refl)

decimal_one : (num : ℕ) → decimal 0 (num ∷ []) ≡ num
unfolding decimal
decimal_one num = omega arith

snoc_text :
    (front ds : List ℕ) (d : ℕ)
    → (front ++ chars ds) ++ (48 + d) ∷ [] ≡ front ++ chars (ds ++ d ∷ [])
snoc_text front ds d =
    append_assoc front (chars ds) ((48 + d) ∷ []) ∙ ap (λ xs. front ++ xs) (sym (chars-snoc d ds))

-- Padding, and then the digits of the number.
record Printed (num width padc : ℕ) (cs : List ℕ) : Type 0 where
  padding : ℕ
  digits : List ℕ
  text : cs ≡ pad (suc padding) padc ++ chars digits
  valid : AllDigits digits
  some_digit : 0 < length digits
  value : decimal 0 digits ≡ num

print_digits-Printed :
    (n num width padc : ℕ)
    → num < n
    → (cs : List ℕ) × ((print_digits n num 10 width padc ≡ some cs) × Printed num width padc cs)
unfolding print_digits
print_digits-Printed zero num width padc h = absurd (omega arith)
print_digits-Printed (suc n) num width padc h = elim (Bool-cases (ltb num 10)) [
  | inl last ↦
      let small : digit_char (num % 10) ≡ 48 + num = ground arith in
      (
        pad width padc ++ (48 + num) ∷ [],
        (
          rw (last, small) refl,
          record {
            padding = (pad-suc width padc).0;
            digits = num ∷ [];
            text = ap (λ xs. xs ++ (48 + num) ∷ []) (pad-suc width padc).1;
            valid = (ground arith, tt);
            some_digit = omega arith;
            value = decimal_one num;
          },
        ),
      )
  | inr more ↦
      let small : digit_char (num % 10) ≡ 48 + num % 10 = ground arith in
      let (cs, (e, p)) = print_digits-Printed n (num / 10) (width - 1) padc (ground arith) in
      (
        cs ++ (48 + num % 10) ∷ [],
        (
          rw (more, e, small) refl,
          record {
            padding = p.padding;
            digits = p.digits ++ num % 10 ∷ [];
            text =
                ap (λ xs. xs ++ (48 + num % 10) ∷ []) p.text
                ∙ snoc_text (pad (suc p.padding) padc) p.digits (num % 10);
            valid = AllDigits-snoc (num % 10) p.digits p.valid (omega arith);
            some_digit = omega (arith, length-append p.digits (num % 10 ∷ []));
            value = omega (arith, decimal-snoc 0 (num % 10) p.digits, p.value);
          },
        ),
      )
]

StringAt-digits :
    (ds : List ℕ) (s : ℕ) (m : Memory) → AllDigits ds → StringAt m s (chars ds) → DigitsAt m s ds
unfolding StringAt DigitsAt digit_in digit_of
StringAt-digits [] s m a at = ground arith
StringAt-digits (d ∷ ds) s m (h, a) at = (h, (at.0, StringAt-digits ds (s + 1) m a at.1.1))

length-chars : (ds : List ℕ) → length (chars ds) ≡ length ds
length-chars [] = refl
length-chars (d ∷ ds) = ap suc (length-chars ds)

digit_not_blank :
    (s : ℕ) (ds : List ℕ) (m : Memory)
    → 0 < length ds
    → DigitsAt m s ds
    → (m s == 32 || m s == 9) ≡ false
unfolding DigitsAt
digit_not_blank s [] m h at = absurd (omega arith)
digit_not_blank s (d ∷ ds) m h at = ground (arith, at.1.0)

-- Padding with spaces in front of the digits of a number.
StringAt-padded :
    (k s : ℕ) (ds : List ℕ) (m : Memory)
    → AllDigits ds
    → 0 < length ds
    → StringAt m s (pad (suc k) 32 ++ chars ds)
    → BlanksAt m s k × DigitsAt m (s + k) ds
unfolding pad StringAt BlanksAt
StringAt-padded zero s ds m a h at =
    let digits = StringAt-digits ds s m a at in
    let here : s ≡ s + 0 = omega arith in
    (digit_not_blank s ds m h digits, subst (λ t. DigitsAt m t ds) here digits)
StringAt-padded (suc k) s ds m a h at =
    let (blanks, digits) = StringAt-padded k (s + 1) ds m a h at.1.1 in
    let on : s + 1 + k ≡ s + suc k = omega arith in
    ((ground (arith, at.0), blanks), subst (λ t. DigitsAt m t ds) on digits)

length-pad : (k padc : ℕ) → length (pad (suc k) padc) ≡ k
unfolding pad
length-pad zero padc = refl
length-pad (suc k) padc = ap suc (length-pad k padc)

-- printnum of a number below 2^31 in base 10, padded with spaces to any width, returns a text that strtol
-- reads back, wherever the text stands as a string and with more steps than it has characters: strtol
-- returns the number and the end of the text.
pub strtol-printnum :
    (num width : ℕ)
    → num < 2 ^ 31
    → (cs : List ℕ) × ((printnum num 10 width 32 ≡ some cs)
        × ((fuel s : ℕ) (m : Memory)
            → StringAt m s cs
            → length cs < fuel
            → strtol fuel s 10 m ≡ parsed (pos num) (s + length cs)))
unfolding printnum
strtol-printnum num width w =
    let (cs, (e, p)) = print_digits-Printed (suc num) num width 32 (omega arith) in
    let size : length cs ≡ p.padding + length p.digits =
      ap length p.text
      ∙ length-append (pad (suc p.padding) 32) (chars p.digits)
      ∙ ap₂ ◌+◌ (length-pad p.padding 32) (length-chars p.digits) in
    (
      cs,
      (
        e,
        λ fuel s m at h.
            let (blanks, digits) =
              StringAt-padded p.padding s p.digits m p.valid p.some_digit
                (subst (StringAt m s) p.text at) in
            let end : s + p.padding + 0 + length p.digits ≡ s + length cs = omega (arith, size) in
            strtol_lem fuel s p.padding false p.digits m blanks (p.some_digit, digits)
              (omega (arith, size, p.some_digit)) (omega (arith, size)) (omega (arith, p.value))
            ∙ ap₂ (λ v t. parsed (pos v) t) p.value end,
      ),
    )
