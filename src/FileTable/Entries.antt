-- ===== src/FileTable/Entries.antt =====
-- Single entries of the descriptor table (ucore_os/kern/fs/file.c): loads and stores, the search
-- for a free one, and the table's invariant between system calls.
use dora_aos2019_homework.Prelude.{
  ℕ, ◌<◌, ◌≡◌, sym, ◌∙◌, ap, ◌≢◌, ◌⊎◌, inl, inr, Bool, true, ◌&&◌, ◌||◌, some, arith, ok, ◌==◌,
  length, Bool-cases,
}
use dora_aos2019_homework.Prelude.{
  get_elem?, set-set, lt_of_get_elem?, get_elem?-set_self, get_elem?-set_ne, set_same, length-set,
}
use dora_aos2019_homework.FileTable.Inodes.{Vfs}
use dora_aos2019_homework.FileTable.{File, Files, put, load, is_none, is_opened, is_some, nentry}

module _ (V : Vfs) where
  -- An entry between system calls: free, or open with one reference and an inode.
  abbrev pub quiet : File V → Bool
  quiet f =
      is_none f.status && f.open_count == 0
      || is_opened f.status && f.open_count == 1 && is_some V f.node

  pub record IsQuiet (fs : Files V) : Type 0 where
    pub alive : 0 < fs.files_count
    pub size : length fs.fd_array ≡ nentry
    pub numbered : (i : ℕ) (f : File V) → get_elem? fs.fd_array i ≡ some f → f.fd ≡ i
    pub quiet_entry : (i : ℕ) (f : File V) → get_elem? fs.fd_array i ≡ some f → quiet f ≡ true

  -- The table has `f` at index `i`.
  pub record IsAt (fs : Files V) (i : ℕ) (f : File V) : Type 0 where
    pub holds : get_elem? fs.fd_array i ≡ some f

  module _ {fs : Files V} {i : ℕ} {f : File V} (at : IsAt fs i f) where
    pub load-at : load V fs i ≡ ok f
    unfolding load
    load-at = rw (at.holds, load)

    pub IsAt-put : (g : File V) → IsAt (put V fs i g) i g
    IsAt-put g = record {
      holds = get_elem?-set_self fs.fd_array i g (lt_of_get_elem? fs.fd_array i at.holds);
    }

    pub IsAt-put_ne :
        {j : ℕ} {h : File V} (g : File V) → i ≢ j → IsAt fs j h → IsAt (put V fs i g) j h
    IsAt-put_ne g ne other = record { holds = get_elem?-set_ne fs.fd_array g ne ∙ other.holds }

    pub put-put : (g h : File V) → put V (put V fs i g) i h ≡ put V fs i h
    put-put g h = ap (λ xs. record fs { fd_array = xs }) (set-set fs.fd_array i g h)

    pub put_same : put V fs i f ≡ fs
    put_same = ap (λ xs. record fs { fd_array = xs }) (set_same fs.fd_array i at.holds)

    found :
        (g : File V) (j : ℕ) (h : File V)
        → get_elem? (put V fs i g).fd_array j ≡ some h
        → ((j ≡ i) × (h ≡ g)) ⊎ (get_elem? fs.fd_array j ≡ some h)
    found g j h e = elim (Bool-cases (i == j)) [
      | inl same ↦
          let here : i ≡ j = ground arith in
          let both : some h ≡ some g =
            sym e ∙ ap (get_elem? (put V fs i g).fd_array) (sym here) ∙ (IsAt-put g).holds in
          inl (sym here, cc)
      | inr other ↦ inr (sym (get_elem?-set_ne fs.fd_array g (λ here. ground arith)) ∙ e)
    ]

    -- A store of a quiet entry of the right number.
    pub put-IsQuiet : IsQuiet fs → (g : File V) → g.fd ≡ i → quiet g ≡ true → IsQuiet (put V fs i g)
    put-IsQuiet q g num ok_entry = record {
      alive = q.alive;
      size = length-set fs.fd_array i g ∙ q.size;
      numbered = λ j h e. elim (found g j h e) [
        | inl (here, same) ↦ rw (same, here) num
        | inr before ↦ q.numbered j h before
      ];
      quiet_entry = λ j h e. elim (found g j h e) [
        | inl (here, same) ↦ rw same ok_entry
        | inr before ↦ q.quiet_entry j h before
      ];
    }
