-- ===== src/Printfmt/Tests.antt =====
-- Runs of printnum (ucore_os/libs/printfmt.c).
use dora_aos2019_homework.Prelude.{ℕ, ◌+◌, ◌<◌, ◌≡◌, refl, some, List, [], ◌∷◌, length, arith}
use dora_aos2019_homework.Prelude.Int.{pos}
use dora_aos2019_homework.Memory.{Memory}
use dora_aos2019_homework.CString.StringAt.{StringAt}
use dora_aos2019_homework.CString.Strtol.{parsed, strtol}
use dora_aos2019_homework.Printfmt.{printnum}
use dora_aos2019_homework.Printfmt.Decimal.{strtol-printnum}

printnum_hex : printnum 254 16 5 48 ≡ some (48 ∷ 48 ∷ 48 ∷ 102 ∷ 101 ∷ [])
unfolding printnum
printnum_hex = refl

strtol-printnum_example :
    (cs : List ℕ) × ((printnum 2019 10 6 32 ≡ some cs)
      × ((fuel s : ℕ) (m : Memory)
          → StringAt m s cs
          → length cs < fuel
          → strtol fuel s 10 m ≡ parsed (pos 2019) (s + length cs)))
strtol-printnum_example = strtol-printnum 2019 6 (omega arith)
