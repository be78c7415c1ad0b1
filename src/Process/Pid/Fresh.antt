-- ===== src/Process/Pid/Fresh.antt =====
-- A new process number is unused: get_pid of ucore_os/kern/process/proc.c.
use dora_aos2019_homework.Prelude.{
  ℕ, zero, suc, ◌+◌, ◌-◌, ◌≤◌, ◌<◌, ◌≡◌, refl, ◌⊎◌, inl, inr, false, ◌&&◌, some, List, [], ◌∷◌, ltb,
  leb, if◌then◌else◌, arith, Bool-cases,
}
use dora_aos2019_homework.Kernel.Links.{has}
use dora_aos2019_homework.Process.Pid.{
  max_pid, PidState, Scan, done, again, scan, repeat_scan, get_pid,
}

-- Every number on the list is below `lo`, or not below `hi`.
abbrev pub AllOutside : ℕ → ℕ → List ℕ → Type 0
AllOutside lo hi [] = Unit
AllOutside lo hi (p ∷ ps) = ((p < lo) ⊎ (hi ≤ p)) × AllOutside lo hi ps

-- A scan that ends has found a number with nothing used between it and `next_safe`.
pub record Found (ps : List ℕ) (last_pid next_safe l s : ℕ) : Type 0 where
  pub from : last_pid ≤ l
  pub below : l < s
  pub to : s ≤ next_safe
  pub outside : AllOutside l s ps

scan-Found :
    (ps : List ℕ) (last_pid next_safe l s : ℕ)
    → last_pid < next_safe
    → scan ps last_pid next_safe ≡ done l s
    → Found ps last_pid next_safe l s
unfolding scan
scan-Found [] last_pid next_safe l s h e = ground arith
scan-Found (p ∷ ps) last_pid next_safe l s h e = ground (
  arith,
  scan-Found ps (last_pid + 1) next_safe l s,
  scan-Found ps last_pid (if ltb last_pid p && ltb p next_safe then p else next_safe) l s,
)

-- How far the number `f` is ahead of `a`, round the end of the range.
abbrev ahead : ℕ → ℕ → ℕ
ahead a f = if leb a f then f - a else max_pid - a + f

-- A scan that is repeated comes nearer to each unused number.
scan-again :
    (ps : List ℕ) (last_pid next_safe f l : ℕ)
    → has f ps ≡ false
    → 1 ≤ f
    → f < max_pid
    → last_pid < next_safe
    → next_safe ≤ max_pid
    → scan ps last_pid next_safe ≡ again l
    → (ahead l f < ahead last_pid f) × ((1 ≤ l) × (l < max_pid))
unfolding scan
scan-again [] last_pid next_safe f l u a b h m e = ground arith
scan-again (p ∷ ps) last_pid next_safe f l u a b h m e = ground (
  arith,
  scan-again ps (last_pid + 1) next_safe f l,
  scan-again ps last_pid (if ltb last_pid p && ltb p next_safe then p else next_safe) f l,
)

Scan-cases : (r : Scan) → ((l : ℕ) × ((s : ℕ) × (r ≡ done l s))) ⊎ ((l : ℕ) × (r ≡ again l))
Scan-cases (done l s) = inl (l, (s, refl))
Scan-cases (again l) = inr (l, refl)

pub record Fresh (pids : List ℕ) (s : PidState) : Type 0 where
  pub positive : 1 ≤ s.last_pid
  pub below : s.last_pid < s.next_safe
  pub bound : s.next_safe ≤ max_pid
  pub outside : AllOutside s.last_pid s.next_safe pids

-- The search ends as soon as it has as many rounds as an unused number is ahead.
repeat_scan_returns :
    (n : ℕ) (pids : List ℕ) (last_pid f : ℕ)
    → has f pids ≡ false
    → 1 ≤ f
    → f < max_pid
    → 1 ≤ last_pid
    → last_pid < max_pid
    → ahead last_pid f < n
    → (s : PidState) × ((repeat_scan n pids last_pid ≡ some s) × Fresh pids s)
unfolding repeat_scan
repeat_scan_returns zero pids last_pid f u a b c d h = absurd (omega arith)
repeat_scan_returns (suc n) pids last_pid f u a b c d h =
    elim (Scan-cases (scan pids last_pid max_pid)) [
      | inl (l, (s, e)) ↦
          let r = scan-Found pids last_pid max_pid l s d e in
          (
            record { last_pid = l; next_safe = s },
            (
              rw (e, repeat_scan) refl,
              record {
                positive = omega (arith, r.from);
                below = r.below;
                bound = r.to;
                outside = r.outside;
              },
            ),
          )
      | inr (l, e) ↦
          let (near, (low, high)) = scan-again pids last_pid max_pid f l u a b d (omega arith) e in
          let (s, (r, v)) = repeat_scan_returns n pids l f u a b low high (omega arith) in
          (s, (rw (e, repeat_scan) r, v))
    ]

-- Nothing on the list lies strictly between `last_pid` and `next_safe`.
pub record IsSafe (pids : List ℕ) (s : PidState) : Type 0 where
  pub bound : s.next_safe ≤ max_pid
  pub last : s.last_pid ≤ max_pid
  pub gap : AllOutside (s.last_pid + 1) s.next_safe pids

AllOutside-wider : (lo hi : ℕ) (ps : List ℕ) → AllOutside lo hi ps → AllOutside (lo + 1) hi ps
AllOutside-wider lo hi [] o = tt
AllOutside-wider lo hi (p ∷ ps) (h, o) = (ground arith, AllOutside-wider lo hi ps o)

has-AllOutside :
    (a lo hi : ℕ) (ps : List ℕ) → AllOutside lo hi ps → lo ≤ a → a < hi → has a ps ≡ false
has-AllOutside a lo hi [] o h k = refl
has-AllOutside a lo hi (p ∷ ps) (x, o) h k = ground (arith, has-AllOutside a lo hi ps o h k)

-- A number that is new takes its place on the list without breaking the gap behind it.
pub record Unused (pids : List ℕ) (s : PidState) : Type 0 where
  pub positive : 1 ≤ s.last_pid
  pub below : s.last_pid < max_pid
  pub unused : has s.last_pid pids ≡ false
  pub safe : IsSafe (s.last_pid ∷ pids) s

Fresh-Unused : (pids : List ℕ) (s : PidState) → Fresh pids s → Unused pids s
Fresh-Unused pids s v = record {
  positive = v.positive;
  below = omega (arith, v.below, v.bound);
  unused = has-AllOutside s.last_pid s.last_pid s.next_safe pids v.outside (omega arith) v.below;
  safe = record {
    bound = v.bound;
    last = omega (arith, v.below, v.bound);
    gap = (inl (omega arith), AllOutside-wider s.last_pid s.next_safe pids v.outside);
  };
}

get_pid-Fresh :
    (pids : List ℕ) (s : PidState) (f : ℕ)
    → IsSafe pids s
    → has f pids ≡ false
    → 1 ≤ f
    → f < max_pid
    → (s' : PidState) × ((get_pid pids s ≡ some s') × Fresh pids s')
unfolding get_pid
get_pid-Fresh pids s f v u a b = elim (Bool-cases (leb max_pid (s.last_pid + 1))) [
  | inl wrap ↦ rw wrap (
      repeat_scan_returns (max_pid + max_pid) pids 1 f u a b (omega arith) (omega arith)
        (ground arith))
  | inr inside ↦ elim (Bool-cases (leb s.next_safe (s.last_pid + 1))) [
    | inl passed ↦
        rw (inside, passed)
          (repeat_scan_returns (max_pid + max_pid) pids (s.last_pid + 1) f u a b (omega arith)
            (ground arith) (ground arith))
    | inr gap ↦ (
      record s { last_pid = s.last_pid + 1 },
      (
        rw (inside, gap) refl,
        record { positive = omega arith; below = ground arith; bound = v.bound; outside = v.gap },
      ),
    )
  ]
]

-- get_pid, with no process number between its two variables and some number of the range unused,
-- ends: it returns a number of the range that no process has, and with the new process on the list
-- there is again none between its variables.
pub get_pid-Unused :
    (pids : List ℕ) (s : PidState) (f : ℕ)
    → IsSafe pids s
    → has f pids ≡ false
    → 1 ≤ f
    → f < max_pid
    → (s' : PidState) × ((get_pid pids s ≡ some s') × Unused pids s')
get_pid-Unused pids s f v u a b =
    let (s', (e, w)) = get_pid-Fresh pids s f v u a b in (s', (e, Fresh-Unused pids s' w))
