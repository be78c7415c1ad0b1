-- ===== src/CString.antt =====
-- C strings in byte memory: the portable branches of ucore_os/libs/string.c. A loop that ends at the
-- NUL runs on fuel; `none` is fuel run out.
pub mod StringAt
pub mod Compare
pub mod Copies
pub mod Strtol
use dora_aos2019_homework.Prelude.{
  ℕ, zero, suc, ◌+◌, ◌⊎◌, inl, inr, ◌&&◌, not, Option, none, some, ◌==◌, if◌then◌else◌,
}
use dora_aos2019_homework.Prelude.Int.{ℤ, pos, sub_ℕ}
use dora_aos2019_homework.Memory.{Memory, store}

-- The loop of strlen: the count from `cnt` on.
unfoldable pub strlen_loop : ℕ → ℕ → ℕ → Memory → Option ℕ
strlen_loop zero s cnt m = none
strlen_loop (suc n) s cnt m =
    let rest = strlen_loop n (s + 1) (cnt + 1) m in if m s == 0 then some cnt else rest

unfoldable pub strlen : ℕ → ℕ → Memory → Option ℕ
unfolding strlen_loop
strlen fuel s m = strlen_loop fuel s 0 m

-- The loop of strnlen, with the `left` bytes that it may still look at.
unfoldable pub strnlen_loop : ℕ → ℕ → ℕ → Memory → ℕ
strnlen_loop zero s cnt m = cnt
strnlen_loop (suc left) s cnt m =
    let rest = strnlen_loop left (s + 1) (cnt + 1) m in if m s == 0 then cnt else rest

unfoldable pub strnlen : ℕ → ℕ → Memory → ℕ
unfolding strnlen_loop
strnlen s len m = strnlen_loop len s 0 m

-- `while ((*p++ = *src++) != '\0');`
unfoldable pub strcpy : ℕ → ℕ → ℕ → Memory → Option Memory
strcpy zero p src m = none
strcpy (suc n) p src m =
    let m' = store m p (m src) in
    let rest = strcpy n (p + 1) (src + 1) m' in if m src == 0 then some m' else rest

unfoldable pub strcat : ℕ → ℕ → ℕ → Memory → Option Memory
unfolding strlen strcpy
strcat fuel dst src m = elim (strlen fuel dst m) [
  | none ↦ none
  | some n ↦ strcpy fuel (dst + n) src m
]

-- The source pointer stays at the NUL, which pads the rest.
unfoldable pub strncpy : ℕ → ℕ → ℕ → Memory → Memory
strncpy p src zero m = m
strncpy p src (suc len) m =
    strncpy (p + 1) (if m src == 0 then src else src + 1) len (store m p (m src))

unfoldable pub strcmp : ℕ → ℕ → ℕ → Memory → Option ℤ
strcmp zero s1 s2 m = none
strcmp (suc n) s1 s2 m =
    let rest = strcmp n (s1 + 1) (s2 + 1) m in
    if not (m s1 == 0) && m s1 == m s2 then rest else some (sub_ℕ (m s1) (m s2))

unfoldable pub strncmp : ℕ → ℕ → ℕ → Memory → ℤ
strncmp s1 s2 zero m = pos 0
strncmp s1 s2 (suc n) m =
    let rest = strncmp (s1 + 1) (s2 + 1) n m in
    if not (m s1 == 0) && m s1 == m s2 then rest else sub_ℕ (m s1) (m s2)

-- strchr returns the address of the character; `inl` is the NUL that ended the search.
unfoldable pub strchr_loop : ℕ → ℕ → ℕ → Memory → Option (ℕ ⊎ ℕ)
strchr_loop zero s c m = none
strchr_loop (suc n) s c m =
    let rest = strchr_loop n (s + 1) c m in
    if m s == 0 then some (inl s) else (if m s == c then some (inr s) else rest)

-- `some none` is NULL.
unfoldable pub strchr : ℕ → ℕ → ℕ → Memory → Option (Option ℕ)
unfolding strchr_loop
strchr fuel s c m = elim (strchr_loop fuel s c m) [
  | none ↦ none
  | some r ↦ elim r [ inl end ↦ some none | inr a ↦ some (some a) ]
]

unfoldable pub strfind : ℕ → ℕ → ℕ → Memory → Option ℕ
unfolding strchr_loop
strfind fuel s c m = elim (strchr_loop fuel s c m) [
  | none ↦ none
  | some r ↦ elim r [ inl end ↦ some end | inr a ↦ some a ]
]
