-- ===== src/Stdin/Buffer.antt =====
-- The ring of ucore_os/kern/fs/devs/dev_stdin.c as a queue of characters.
use dora_aos2019_homework.Prelude.{
  ℕ, zero, suc, ◌+◌, ◌-◌, ◌%◌, ◌≤◌, ◌<◌, ◌≡◌, refl, List, [], ◌∷◌, ◌++◌, arith, ltb, if◌then◌else◌,
  length, ◌==◌, ◌⊎◌, inl, inr, ap, ap₂, sym, ◌∙◌, subst, Bool-cases,
}
use dora_aos2019_homework.Stdin.{Stdin, put_char, read_available, stdin_bufsize}

-- The `n` characters from position `pos` on.
unfoldable pub span : (ℕ → ℕ) → ℕ → ℕ → List ℕ
span buffer p zero = []
span buffer p (suc n) = buffer (p % 4096) ∷ span buffer (p + 1) n

-- The characters not yet read, oldest first.
abbrev pub unread : Stdin → List ℕ
unread s = span s.stdin_buffer s.p_rpos (s.p_wpos - s.p_rpos)

-- The writer is at most one buffer ahead of the reader.
pub record IsValid (s : Stdin) : Type 0 where
  pub behind : s.p_rpos ≤ s.p_wpos
  pub room : s.p_wpos - s.p_rpos ≤ stdin_bufsize

span_put :
    (c p w n : ℕ) (buffer : ℕ → ℕ)
    → p + n ≡ w
    → n < 4096
    → span (λ i. if i == w % 4096 then c else buffer i) p (n + 1) ≡ span buffer p n ++ (c ∷ [])
unfolding span
span_put c p w zero buffer e h = ground arith
span_put c p w (suc n) buffer e h =
    ground (arith, span_put c (p + 1) w n buffer (omega arith) (omega arith))

span_miss :
    (c p0 w p n : ℕ) (buffer : ℕ → ℕ)
    → w % 4096 ≡ p0 % 4096
    → p0 < p
    → p + n ≤ p0 + 4096
    → span (λ i. if i == w % 4096 then c else buffer i) p n ≡ span buffer p n
unfolding span
span_miss c p0 w p zero buffer q e h = refl
span_miss c p0 w p (suc n) buffer q e h =
    let other : (if p % 4096 == w % 4096 then c else buffer (p % 4096)) ≡ buffer (p % 4096) =
      ground arith in
    ap₂ (λ a l. a ∷ l) other (span_miss c p0 w (p + 1) n buffer q (omega arith) (omega arith))

-- With room in a valid ring, a character written joins the unread ones behind all others, and the
-- ring stays valid.
pub put_char-room :
    (c : ℕ) (s : Stdin)
    → IsValid s
    → s.p_wpos - s.p_rpos < stdin_bufsize
    → IsValid (put_char c s) × (unread (put_char c s) ≡ unread s ++ (c ∷ []))
unfolding put_char
put_char-room c s v h =
    let more : (put_char c s).p_wpos - s.p_rpos ≡ s.p_wpos - s.p_rpos + 1 = ground arith in
    (
      record { behind = ground arith; room = ground arith },
      ap (span (put_char c s).stdin_buffer s.p_rpos) more
          ∙ span_put c s.p_rpos s.p_wpos (s.p_wpos - s.p_rpos) s.stdin_buffer
              (omega (arith, v.behind)) h,
    )

span_full :
    (c x p n w : ℕ) (xs : List ℕ) (buffer : ℕ → ℕ)
    → w ≡ p + 4096
    → n ≡ 4095
    → span buffer p (suc n) ≡ x ∷ xs
    → span (λ i. if i == w % 4096 then c else buffer i) p (suc n) ≡ c ∷ xs
unfolding span
span_full c x p n w xs buffer e h r =
    let wraps : w % 4096 ≡ p % 4096 = omega arith in
    let hd : (if p % 4096 == w % 4096 then c else buffer (p % 4096)) ≡ c = ground (arith, wraps) in
    let tl : span buffer (p + 1) n ≡ xs = cc in
    ap₂ (λ a l. a ∷ l) hd (span_miss c p w (p + 1) n buffer wraps (omega arith) (omega arith) ∙ tl)

-- With a valid ring full, a character written is not added: it takes the place of the oldest unread one.
pub put_char-full :
    (c x : ℕ) (xs : List ℕ) (s : Stdin)
    → IsValid s
    → s.p_wpos - s.p_rpos ≡ stdin_bufsize
    → unread s ≡ x ∷ xs
    → IsValid (put_char c s) × (unread (put_char c s) ≡ c ∷ xs)
unfolding put_char
put_char-full c x xs s v h e =
    let same : (put_char c s).p_wpos - s.p_rpos ≡ 4096 = ground arith in
    (
      record { behind = ground arith; room = ground arith },
      ap (span (put_char c s).stdin_buffer s.p_rpos) same
          ∙ span_full c x s.p_rpos 4095 s.p_wpos xs s.stdin_buffer (omega (arith, v.behind)) refl
              (ap (span s.stdin_buffer s.p_rpos) (sym h) ∙ e),
    )

-- What reading hands out, followed by what stays unread, is what was unread before; a reader gets as
-- many characters as it wanted, or all that there were.
pub record Read (wanted : ℕ) (s : Stdin) (cs : List ℕ) (left : ℕ) (s' : Stdin) : Type 0 where
  pub order : cs ++ unread s' ≡ unread s
  pub count : length cs + left ≡ wanted
  pub dry : (left ≡ 0) ⊎ (unread s' ≡ [])
  pub valid : IsValid s'

abbrev ReadResult : ℕ → Stdin → List ℕ × ℕ × Stdin → Type 0
ReadResult n s r = Read n s r.0 r.1 r.2

-- The reading loop, on a valid ring, hands out the oldest unread characters in order, keeps the ring
-- valid, and stops short of what is wanted only when nothing is left to read.
pub read_available-Read :
    (n : ℕ) (s : Stdin)
    → IsValid s
    → Read n s (read_available n s).0 (read_available n s).1 (read_available n s).2
unfolding read_available span
read_available-Read zero s v = record { order = refl; count = refl; dry = inl refl; valid = v }
read_available-Read (suc n) s v =
    let s1 : Stdin = record s { p_rpos = s.p_rpos + 1 } in
    let r = read_available n s1 in
    elim (Bool-cases (ltb s.p_rpos s.p_wpos)) [
      | inl e ↦
          let ih =
            read_available-Read n s1 (record { behind = ground arith; room = ground arith }) in
          let x = s.stdin_buffer (s.p_rpos % 4096) in
          let eq : read_available (suc n) s ≡ (x ∷ r.0, r.1, r.2) = rw e refl in
          let m : s.p_wpos - s.p_rpos ≡ suc (s.p_wpos - (s.p_rpos + 1)) = ground arith in
          subst (ReadResult (suc n) s) (sym eq) (record {
            order = ap (λ l. x ∷ l) ih.order ∙ ap (span s.stdin_buffer s.p_rpos) (sym m);
            count = omega (arith, ih.count);
            dry = ih.dry;
            valid = ih.valid;
          })
      | inr e ↦
          let eq : read_available (suc n) s ≡ ([], suc n, s) = rw e refl in
          let m : s.p_wpos - s.p_rpos ≡ 0 = ground arith in
          subst (ReadResult (suc n) s) (sym eq) (record {
            order = refl;
            count = omega arith;
            dry = inr (ap (span s.stdin_buffer s.p_rpos) m);
            valid = v;
          })
    ]
