-- ===== src/Sfs/Direct.antt =====
-- A block for a direct entry of an inode, for sfs_bmap_get_nolock of ucore_os/kern/fs/sfs/sfs_inode.c.
use dora_aos2019_homework.Prelude.{
  ℕ, zero, suc, ◌<◌, ◌≡◌, refl, sym, subst, ◌∙◌, ap, ◌≢◌, ◌⊎◌, inl, inr, Bool, true, false, ◌&&◌,
  some, List, [], ◌∷◌, length, length-set, get_elem?, get_elem?-set_self, get_elem?-set_ne, set,
  ◌==◌, if◌then◌else◌, arith, Bool-cases,
}
use dora_aos2019_homework.Sfs.{
  Sfs, Inode, done, direct_at, set_direct, sfs_block_alloc, store_ino, get_direct,
}
use dora_aos2019_homework.Sfs.Posts.{Post, Post-bind}
use dora_aos2019_homework.Sfs.Blocks.{free, IsSfs, Used, sfs_block_inuse_lem}
use dora_aos2019_homework.Sfs.Extends.{faulty, Extends, Extends-refl, Short, New, block_alloc-Post}
use dora_aos2019_homework.Sfs.Maps.{
  or_none, mapped, InodeIn, mapped-direct, Used-Extends, mapped-Extends,
}
use dora_aos2019_homework.Sfs.Grown.{Added, Gets, grown-InodeIn}

pub store_ino_lem :
    (s : Sfs) (ino : ℕ) (sin : Inode)
    → IsSfs s
    → (ino ≢ 0 → Used s ino)
    → store_ino ino sin s ≡ done (ino, sin) s
unfolding store_ino
store_ino_lem s ino sin v u = elim (Bool-cases (ino == 0)) [
  | inl z ↦ rw z refl
  | inr there ↦
      let w = u (λ e. ground arith) in
      rw (there, sfs_block_inuse_lem s ino v w.above w.below, w.busy) refl
]

pub mapped-set_direct :
    (s s' : Sfs) (sin : Inode) (index i : ℕ)
    → InodeIn s sin
    → index < 12
    → ((j : ℕ) → mapped s' sin j ≡ mapped s sin j)
    → (j : ℕ) → mapped s' (set_direct sin index i) j ≡ (if j == index then i else mapped s sin j)
unfolding mapped
mapped-set_direct s s' sin index i m l same j = elim (Bool-cases (j == index)) [
  | inl here ↦
      let e : j ≡ index = ground arith in
      let at : get_elem? (set sin.direct index i) j ≡ some i =
        ap (get_elem? (set sin.direct index i)) e
        ∙ get_elem?-set_self sin.direct index i (omega (arith, m.size)) in
      ground (arith, at)
  | inr there ↦
      let other : index ≢ j = λ e. ground arith in
      let off = get_elem?-set_ne sin.direct i other in ground (arith, off, same j)
]

pub direct_some : (xs : List ℕ) (i : ℕ) → i < length xs → (x : ℕ) × (get_elem? xs i ≡ some x)
direct_some [] i l = absurd (omega arith)
direct_some (x ∷ xs) zero l = (x, refl)
direct_some (x ∷ xs) (suc i) l = direct_some xs i (omega arith)

pub direct_at_lem :
    (sin : Inode) (index : ℕ) (s : Sfs) {ino : ℕ}
    → get_elem? sin.direct index ≡ some ino
    → direct_at sin index s ≡ done ino s
unfolding direct_at
direct_at_lem sin index s e = rw (direct_at, e) refl

abbrev pub GetKept : Sfs → Bool → Sfs → Type 0
GetKept s create s' = Extends s s' × ((create ≡ true) × Short 2 s ⊎ (faulty s.faults ≡ true))

set_direct-Added :
    (s s' : Sfs) (sin : Inode) (index ino : ℕ)
    → InodeIn s sin
    → index < 12
    → New s ino s'
    → Added s sin index ino (set_direct sin index ino) s'
set_direct-Added s s' sin index ino m l n =
    let x = n.extends in
    let now = mapped-set_direct s s' sin index ino m l (mapped-Extends sin x m.table) in
    let apart : ino ≢ sin.indirect = λ e.
      let t = m.table (λ z. ground (arith, n.used.above)) in
      absurd (ground (arith, n.was, t.busy, ap (free s) e)) in
    record {
      valid = x.valid;
      inode =
          grown-InodeIn s s' sin (set_direct sin index ino) index ino m
            (length-set sin.direct index ino ∙ m.size) (λ b u. Used-Extends b x u) n.was n.used
            apart (inl refl) now;
      blocks = refl;
      idle = n.was;
      used = n.used;
      zeros = n.zeros;
      now = now;
      taken = x.taken;
      disk = λ b h ne k. x.disk b h k;
      faults = x.faults;
    }

pub get_direct-Post :
    (s : Sfs) (sin : Inode) (index : ℕ) (create : Bool)
    → IsSfs s
    → InodeIn s sin
    → index < 12
    → Post (Gets s sin index create) (GetKept s create) (get_direct sin index create s)
unfolding get_direct
get_direct-Post s sin index create v m l =
    let (ino, e) = direct_some sin.direct index (omega (arith, m.size)) in
    let value : mapped s sin index ≡ ino = mapped-direct s sin index l ∙ ap or_none e in
    elim (Bool-cases (ino == 0 && create)) [
      | inl new ↦
          let empty : mapped s sin index ≡ 0 = ground arith in
          let wanted : create ≡ true = ground arith in
          rw (direct_at_lem sin index s e, new)
            (Post-bind (Gets s sin index create) (GetKept s create) (sfs_block_alloc s) _
              (block_alloc-Post s v)
              (λ i s1 n.
                let sin1 = set_direct sin index i in
                rw (store_ino_lem s1 i sin1 n.extends.valid (λ _. n.used))
                  (inr (empty, wanted, set_direct-Added s s1 sin index i m l n)))
              (λ s' (x, short). (
                x,
                inl (wanted, elim short [ inl f ↦ inl f | inr few ↦ inr (omega (arith, few)) ]),
              )))
      | inr old ↦
          let u : ino ≢ 0 → Used s ino =
            λ n. subst (λ b. Used s b) value (m.used index (λ z. n (sym value ∙ z))) in
          let known : (mapped s sin index ≢ 0) ⊎ (create ≡ false) = elim (Bool-cases create) [
            | inl wanted ↦ inl (λ z. ground arith)
            | inr unwanted ↦ inr unwanted
          ] in
          rw (direct_at_lem sin index s e, old, store_ino_lem s ino sin v u)
            (inl (record {
              known = known;
              value = sym value;
              inode = refl;
              freemap = refl;
              disk = refl;
              extends = Extends-refl v;
            }))
    ]
