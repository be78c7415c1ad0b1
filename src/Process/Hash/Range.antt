-- ===== src/Process/Hash/Range.antt =====
-- The range of hash32 (ucore_os/libs/hash.c).
use dora_aos2019_homework.Prelude.{
  ℕ, zero, suc, ◌≤◌, ◌+◌, ◌-◌, ◌*◌, ◌%◌, ◌^◌, ◌<◌, ◌≡◌, sym, subst, ◌∙◌, ap, arith,
}
use native.Mathlib.Nat.{two-pow-succ, one-le-pow, div-lt_iff_lt-mul}
use dora_aos2019_homework.Process.Hash.{golden_ratio_prime_32, hash32}

two_pow_add : (a b : ℕ) → 2 ^ (a + b) ≡ 2 ^ a * 2 ^ b
two_pow_add zero b = let e : zero + b ≡ b = omega arith in ap (λ t. 2 ^ t) e ∙ grind arith
two_pow_add (suc a) b =
    let e : suc a + b ≡ suc (a + b) = omega arith in
    ap (λ t. 2 ^ t) e ∙ two-pow-succ (a + b) ∙ grind (arith, two_pow_add a b, two-pow-succ a)

-- hash32 keeps to the numbers of `bits` bits, whatever the value, for 1 to 32 bits.
pub hash32_bound : (val bits : ℕ) → 1 ≤ bits → bits ≤ 32 → hash32 val bits < 2 ^ bits
unfolding hash32
hash32_bound val bits some_bit h =
    let e : bits + (32 - bits) ≡ 32 = omega arith in
    let whole : 2 ^ bits * 2 ^ (32 - bits) ≡ 2 ^ 32 =
      sym (two_pow_add bits (32 - bits)) ∙ ap (λ t. 2 ^ t) e in
    let word : val * golden_ratio_prime_32 % 2 ^ 32 < 2 ^ 32 = omega arith in
    (div-lt_iff_lt-mul (one-le-pow (32 - bits) 2 (omega arith))).1
      (subst (λ t. val * golden_ratio_prime_32 % 2 ^ 32 < t) (sym whole) word)
