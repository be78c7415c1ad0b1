-- ===== src/Kernel/Timers/Due.antt =====
-- The timer list as a list of absolute times.
use dora_aos2019_homework.Prelude.{
  ℕ, ◌+◌, ◌-◌, ◌%◌, ◌^◌, ◌<◌, ◌≡◌, refl, inl, inr, List, [], ◌∷◌, arith, ltb, ◌==◌, if◌then◌else◌,
  Bool-cases,
}
use dora_aos2019_homework.Kernel.{Timer}
use dora_aos2019_homework.Kernel.Timers.{timer_insert, pass_on, timer_remove}

-- Each timer with the number of ticks after which it fires, counted from `base`.
abbrev pub due : ℕ → List Timer → List (ℕ × ℕ)
due base [] = []
due base (t ∷ ts) = (t.address, base + t.expires) ∷ due (base + t.expires) ts

-- Insertion by absolute time, behind those of the same time.
abbrev pub insert_due : ℕ → ℕ → List (ℕ × ℕ) → List (ℕ × ℕ)
insert_due a e [] = (a, e) ∷ []
insert_due a e ((b, f) ∷ ds) = if ltb e f then (a, e) ∷ (b, f) ∷ ds else (b, f) ∷ insert_due a e ds

abbrev pub remove_due : ℕ → List (ℕ × ℕ) → List (ℕ × ℕ)
remove_due a [] = []
remove_due a ((b, f) ∷ ds) = if a == b then ds else (b, f) ∷ remove_due a ds

-- The ticks until the last timer fires.
abbrev pub span : List Timer → ℕ
span [] = 0
span (t ∷ ts) = t.expires + span ts

-- The insertion loop of add_timer puts a timer among the others by the tick it is due at, behind those
-- due at the same tick, and leaves the tick of every other timer as it was.
pub due-timer_insert :
    (base : ℕ) (t : Timer) (ts : List Timer)
    → due base (timer_insert t ts) ≡ insert_due t.address (base + t.expires) (due base ts)
unfolding timer_insert
due-timer_insert base t [] = refl
due-timer_insert base t (n ∷ ns) =
    ground
      (arith, due-timer_insert (base + n.expires) (record t { expires = t.expires - n.expires }) ns)

due-pass_on :
    (base e : ℕ) (ts : List Timer)
    → e + span ts < 2 ^ 32
    → due base (pass_on e ts) ≡ due (base + e) ts
unfolding pass_on
due-pass_on base e [] h = refl
due-pass_on base e (n ∷ ns) h = elim (Bool-cases (e == 0)) [
  | inl zero_left ↦ ground arith
  | inr left ↦
      let a : (n.expires + e) % 2 ^ 32 ≡ n.expires + e = omega arith in
      let b : base + (n.expires + e) ≡ base + e + n.expires = omega arith in rw (left, a, b)
]

-- Taking a timer off, as del_timer does, leaves the tick of every other timer as it was, where the
-- ticks of the whole list do not wrap around.
pub due-timer_remove :
    (base a : ℕ) (ts : List Timer)
    → span ts < 2 ^ 32
    → due base (timer_remove a ts) ≡ remove_due a (due base ts)
unfolding timer_remove
due-timer_remove base a [] h = refl
due-timer_remove base a (t ∷ ts) h =
    ground (arith, due-pass_on base t.expires ts, due-timer_remove (base + t.expires) a ts)
