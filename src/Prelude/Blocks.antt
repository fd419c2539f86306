-- ===== src/Prelude/Blocks.antt =====
-- An array of blocks of `n` bytes each, laid end to end.
use Prim.Native.Nat.{ℕ, zero, suc, ◌+◌, ◌*◌, ◌<◌}
use mathlib.Core.Path.{◌≡◌, refl, ap, ◌∙◌}
use mathlib.Core.List.{List, [], ◌∷◌, ◌++◌}
use native.Mathlib.Omega.{arith}
use longboy.Prelude.Lists.{length, get_or, set, length-append}
use longboy.Prelude.Slices.{slice, write, slice_front, slice-append, write_front, write-append}

abbrev pub concat : List (List ℕ) → List ℕ
concat [] = []
concat (b ∷ bs) = b ++ concat bs

abbrev pub AllSized : ℕ → List (List ℕ) → Type 0
AllSized n [] = Unit {0}
AllSized n (b ∷ bs) = (length b ≡ n) × AllSized n bs

pub length-concat :
    (n : ℕ) (bs : List (List ℕ)) → AllSized n bs → length (concat bs) ≡ n * length bs
length-concat n [] h = omega arith
length-concat n (b ∷ bs) h = omega (arith, length-append b (concat bs), length-concat n bs h.1)

module _ (n : ℕ) where
  pub slice-concat :
      (bs : List (List ℕ)) (i : ℕ)
      → AllSized n bs
      → i < length bs
      → slice (concat bs) (n * i) n ≡ get_or bs i []
  slice-concat [] i h lt = absurd (omega arith)
  slice-concat (b ∷ bs) zero h lt =
      let e : n * 0 ≡ 0 = omega arith in rw e (slice_front b (concat bs) n h.0)
  slice-concat (b ∷ bs) (suc i) h lt =
      let e : n * suc i ≡ length b + n * i = omega arith in
      rw e (slice-append b (concat bs) (n * i) n ∙ slice-concat bs i h.1 (omega arith))

  pub write-concat :
      (bs : List (List ℕ)) (i : ℕ) (b : List ℕ)
      → AllSized n bs
      → length b ≡ n
      → write (concat bs) (n * i) b ≡ concat (set bs i b)
  write-concat [] i b h e = refl
  write-concat (a ∷ bs) zero b h e =
      let e' : n * 0 ≡ 0 = omega arith in rw e' (write_front a (concat bs) b (omega arith))
  write-concat (a ∷ bs) (suc i) b h e =
      let e' : n * suc i ≡ length a + n * i = omega arith in
      rw e' (write-append a (concat bs) (n * i) b ∙ ap (◌++◌ a) (write-concat bs i b h.1 e))
