-- ===== src/FileTable/CloseAll.antt =====
-- What files_closeall of ucore_os/kern/fs/fs.c leaves open.
use dora_aos2019_homework.Prelude.{
  ℕ, zero, suc, ◌+◌, ◌-◌, ◌<◌, ◌≤◌, ◌≡◌, refl, sym, ◌∙◌, ap, inl, inr, true, false, Option, none,
  some, List, [], ◌∷◌, length, get_elem?, arith, ok, ◌==◌, ltb, if◌then◌else◌, Bool-cases,
  Option-cases, get_elem?-set_self, get_elem?-set_ne, lt_of_get_elem?,
}
use dora_aos2019_homework.FileTable.Inodes.{Vfs}
use dora_aos2019_homework.FileTable.{File, Files, put, is_none, is_opened, nentry, fd_none}
use dora_aos2019_homework.FileTable.Process.{close_if_open, close_from, files_closeall}
use dora_aos2019_homework.FileTable.Entries.{IsQuiet, IsAt, load-at, put-IsQuiet}
use dora_aos2019_homework.FileTable.Keeps.{IsOpen, close_open}

entry_at {ℓ} :
    {A : Type ℓ} → (xs : List A) (i : ℕ) → i < length xs → (x : A) × (get_elem? xs i ≡ some x)
entry_at [] i l = absurd (omega arith)
entry_at (x ∷ xs) zero l = (x, refl)
entry_at (x ∷ xs) (suc i) l = entry_at xs i (omega arith)

module _ (V : Vfs) where
  open V use {Node, World}

  -- The inode of an open entry is closed.
  abbrev pub close_held : Option Node → World → World
  close_held none w = w
  close_held (some node) w = V.vfs_close node w

  abbrev pub close_entry : Option (File V) → World → World
  close_entry none w = w
  close_entry (some f) w = if is_opened f.status then close_held f.node w else w

  -- The inodes of the open ones among `n` entries from `i` on are closed, each once and in order.
  unfoldable pub closings : ℕ → ℕ → List (File V) → World → World
  closings zero i fs w = w
  closings (suc n) i fs w = closings n (i + 1) fs (close_entry (get_elem? fs i) w)

  closings_same :
      (n i : ℕ) (fs gs : List (File V)) (w : World)
      → ((j : ℕ) → i ≤ j → get_elem? fs j ≡ get_elem? gs j)
      → closings n i fs w ≡ closings n i gs w
  unfolding closings
  closings_same zero i fs gs w e = refl
  closings_same (suc n) i fs gs w e =
      closings_same n (i + 1) fs gs (close_entry (get_elem? fs i) w) (λ j l. e j (omega arith))
      ∙ ap (λ t. closings n (i + 1) gs (close_entry t w)) (e i (omega arith))

  -- The table is quiet, the entries below `i` are as they were, and the others are free.
  pub record ClosedFrom (i : ℕ) (fs fs' : Files V) : Type 0 where
    pub table : IsQuiet V fs'
    pub kept : (j : ℕ) → j < i → get_elem? fs'.fd_array j ≡ get_elem? fs.fd_array j
    pub closed :
        (j : ℕ) (f : File V) → i ≤ j → get_elem? fs'.fd_array j ≡ some f → is_none f.status ≡ true

  -- One entry.
  record ClosedAt (i : ℕ) (fs fs' : Files V) : Type 0 where
    pub table : IsQuiet V fs'
    pub kept : (j : ℕ) → (j == i) ≡ false → get_elem? fs'.fd_array j ≡ get_elem? fs.fd_array j
    pub entry : File V
    pub at : get_elem? fs'.fd_array i ≡ some entry
    pub closed : is_none entry.status ≡ true

  close_if_open_lem :
      (i : ℕ) (fs : Files V) (w : World)
      → IsQuiet V fs
      → i < nentry
      → (fs' : Files V) × (w' : World) × (close_if_open V i fs w ≡ ok (fs', w'))
        × (w' ≡ close_entry (get_elem? fs.fd_array i) w)
        × ClosedAt i fs fs'
  unfolding close_if_open
  close_if_open_lem i fs w q l =
      let (f, e) = entry_at fs.fd_array i (omega (arith, q.size)) in
      let at : IsAt V fs i f = record { holds = e } in
      elim (Bool-cases (is_opened f.status)) [
        | inl opened ↦ elim (Option-cases f.node) [
          | inl null ↦ absurd (ground (arith, q.quiet_entry i f e))
          | inr (node, held) ↦
              let o : IsOpen V fs i f node = record {
                table = q;
                small = l;
                at = at;
                opened = ground arith;
                held = held;
              } in
              let g : File V = record f { status = fd_none; open_count = 0 } in
              (
                put V fs i g,
                V.vfs_close node w,
                rw (load-at V at, opened) (close_open V o w),
                rw (e, opened, held) refl,
                record {
                  table = put-IsQuiet V at q g (q.numbered i f e) refl;
                  kept = λ j h. get_elem?-set_ne fs.fd_array g (λ same. ground arith);
                  entry = g;
                  at = get_elem?-set_self fs.fd_array i g (lt_of_get_elem? fs.fd_array i e);
                  closed = refl;
                },
              )
        ]
        | inr idle ↦ (
          fs,
          w,
          rw (load-at V at, idle) refl,
          rw (e, idle) refl,
          record {
            table = q;
            kept = λ j h. refl;
            entry = f;
            at = e;
            closed = ground (arith, q.quiet_entry i f e);
          },
        )
      ]

  close_from_lem :
      (n i : ℕ) (fs : Files V) (w : World)
      → IsQuiet V fs
      → i + n ≡ nentry
      → (fs' : Files V) × (w' : World) × (close_from V n i fs w ≡ ok (fs', w'))
        × (w' ≡ closings n i fs.fd_array w)
        × ClosedFrom i fs fs'
  unfolding close_from closings
  close_from_lem zero i fs w q e = (
    fs,
    w,
    refl,
    refl,
    record {
      table = q;
      kept = λ j h. refl;
      closed = λ j f l g. absurd (omega (arith, lt_of_get_elem? fs.fd_array j g, q.size));
    },
  )
  close_from_lem (suc n) i fs w q e =
      let (fs1, w1, run, one, c) = close_if_open_lem i fs w q (omega arith) in
      let (fs2, w2, rest, others, d) = close_from_lem n (i + 1) fs1 w1 c.table (omega arith) in
      let same =
        closings_same n (i + 1) fs1.fd_array fs.fd_array w1 (λ j l. c.kept j (ground arith)) in
      (
        fs2,
        w2,
        rw (run, rest) refl,
        others ∙ same ∙ ap (closings n (i + 1) fs.fd_array) one,
        record {
          table = d.table;
          kept = λ j h. d.kept j (omega arith) ∙ c.kept j (ground arith);
          closed = λ j f l g. elim (Bool-cases (j == i)) [
            | inl here ↦
                let j_i : j ≡ i = ground arith in
                let same : some f ≡ some c.entry =
                  sym g ∙ ap (get_elem? fs2.fd_array) j_i ∙ d.kept i (omega arith) ∙ c.at in
                ground (arith, same, c.closed)
            | inr further ↦ d.closed j f (ground arith) g
          ];
        },
      )

  -- files_closeall of a table between system calls never panics: it leaves stdin and stdout as they were,
  -- every other entry is free, the inode of each that was open is closed once, in order, and the table is
  -- again one between system calls.
  pub files_closeall_lem :
      (fs : Files V) (w : World)
      → IsQuiet V fs
      → (fs' : Files V) × (w' : World) × (files_closeall V fs w ≡ ok (fs', w'))
        × (w' ≡ closings (nentry - 2) 2 fs.fd_array w)
        × ClosedFrom 2 fs fs'
  unfolding files_closeall
  files_closeall_lem fs w q =
      let (fs', w', run, world, c) = close_from_lem (nentry - 2) 2 fs w q refl in
      let alive : ltb 0 fs.files_count ≡ true = ground (arith, q.alive) in
      (fs', w', rw (alive, run) refl, world, c)
