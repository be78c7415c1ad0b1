-- ===== src/Stdin.antt =====
-- The keyboard buffer behind stdin: ucore_os/kern/fs/devs/dev_stdin.c.
pub mod Buffer
mod Tests
use dora_aos2019_homework.Prelude.{
  ℕ, zero, suc, ◌+◌, ◌-◌, ◌%◌, Bool, true, not, Option, none, some, List, [], ◌∷◌, Outcome, ok,
  ◌>>=◌, ◌>>◌, ltb, ◌==◌, if◌then◌else◌,
}
use dora_aos2019_homework.Kernel.{Kernel}
use dora_aos2019_homework.Kernel.Waits.{
  wt_kbd, wait_queue_empty, wakeup_queue, wait_current_set, wait_current_del,
}

-- `STDIN_BUFSIZE`
abbrev pub stdin_bufsize : ℕ
stdin_bufsize = 4096

-- The characters ever read and written are counted by `p_rpos` and `p_wpos`.
pub record Stdin : Type 0 where
  pub stdin_buffer : ℕ → ℕ
  pub p_rpos : ℕ
  pub p_wpos : ℕ

unfoldable pub put_char : ℕ → Stdin → Stdin
put_char c s =
    let at = s.p_wpos % stdin_bufsize in
    let buffer : ℕ → ℕ = λ i. if i == at then c else s.stdin_buffer i in
    record {
      stdin_buffer = buffer;
      p_rpos = s.p_rpos;
      p_wpos = if ltb (s.p_wpos - s.p_rpos) stdin_bufsize then s.p_wpos + 1 else s.p_wpos;
    }

-- `queue` is the address of `__wait_queue`. A NUL is dropped.
unfoldable pub dev_stdin_write : ℕ → ℕ → Stdin → Kernel → Outcome (Stdin × Kernel)
unfolding put_char
dev_stdin_write queue c s k = if c == 0 then ok (s, k) else (do
  k' ← (if not (wait_queue_empty queue k) then wakeup_queue queue wt_kbd true k else ok k)
  ok (put_char c s, k'))

-- The loop of `dev_stdin_read` while characters are there: what it has read, how many it still
-- wants, and the buffer. With any left to want it has run out of input.
unfoldable pub read_available : ℕ → Stdin → List ℕ × ℕ × Stdin
read_available zero s = ([], 0, s)
read_available (suc n) s =
    let (cs, left, s') = read_available n (record s { p_rpos = s.p_rpos + 1 }) in
    if ltb s.p_rpos s.p_wpos
    then (s.stdin_buffer (s.p_rpos % stdin_bufsize) ∷ cs, left, s')
    else ([], suc n, s)

-- Out of input, the reader sleeps through the wait `w`; `none` when it has all it wanted.
unfoldable pub read_block : ℕ → ℕ → ℕ → Kernel → Outcome (Option Kernel)
read_block queue w zero k = ok none
read_block queue w (suc left) k = wait_current_set queue w wt_kbd k >>= (λ k'. ok (some k'))

-- Back from `schedule()`: whether to try again, which a wake-up by the keyboard asks for.
unfoldable pub read_resume : ℕ → ℕ → Kernel → Outcome (Bool × Kernel)
read_resume queue w k = do
  k' ← wait_current_del queue w k
  ok ((k'.waits w).wakeup_flags == wt_kbd, k')
