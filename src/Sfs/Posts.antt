-- ===== src/Sfs/Posts.antt =====
-- What holds after an operation of ucore_os/kern/fs/sfs that does not panic.
use dora_aos2019_homework.Sfs.{Sfs, Reply, done, failed, stop, ◌▷◌, cleanup}

module _ {ℓ} {A : Type ℓ} where
  -- The reply is no panic; `P` holds of a value and the state with it, `E` of the state after an error.
  abbrev pub Post : (A → Sfs → Type 0) → (Sfs → Type 0) → Reply A → Type 0
  Post P E (done a s) = P a s
  Post P E (failed e s) = E s
  Post P E stop = ⊥

  pub Post-imp :
      {P : A → Sfs → Type 0} (Q : A → Sfs → Type 0) {E : Sfs → Type 0} (F : Sfs → Type 0)
      → (m : Reply A) → Post P E m
      → ((a : A) (s : Sfs) → P a s → Q a s)
      → ((s : Sfs) → E s → F s)
      → Post Q F m
  Post-imp Q F (done a s) h f g = f a s h
  Post-imp Q F (failed e s) h f g = g s h
  Post-imp Q F stop h f g = h

module _ {ℓ κ} {A : Type ℓ} {B : Type κ} where
  pub Post-bind :
      {P : A → Sfs → Type 0} (Q : B → Sfs → Type 0) {E : Sfs → Type 0} (F : Sfs → Type 0)
      → (m : Reply A) → (f : A → Sfs → Reply B) → Post P E m
      → ((a : A) (s : Sfs) → P a s → Post Q F (f a s))
      → ((s : Sfs) → E s → F s)
      → Post Q F (m ▷ f)
  Post-bind Q F (done a s) k h f g = f a s h
  Post-bind Q F (failed e s) k h f g = g s h
  Post-bind Q F stop k h f g = h

module _ {ℓ} {A : Type ℓ} where
  pub Post-cleanup :
      (P : A → Sfs → Type 0) (E F : Sfs → Type 0)
      → (m : Reply A) → (undo : Sfs → Reply (Unit {0})) → Post P E m
      → ((s : Sfs) → E s → Post (λ _ s. F s) F (undo s))
      → Post P F (cleanup undo m)
  Post-cleanup P E F (done a s) undo h u = h
  Post-cleanup P E F (failed e s) undo h u =
      Post-bind P F (undo s) _ (u s h) (λ _ s' g. g) (λ s' g. g)
  Post-cleanup P E F stop undo h u = h
