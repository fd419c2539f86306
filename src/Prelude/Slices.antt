-- ===== src/Prelude/Slices.antt =====
-- Byte ranges of an array: `xs[i..i + n]` read as a whole and overwritten in place.
use Prim.Native.Nat.{ℕ, zero, suc, ◌+◌, ◌≤◌}
use mathlib.Core.Path.{◌≡◌, refl, ap}
use mathlib.Core.List.{List, [], ◌∷◌, ◌++◌}
use native.Mathlib.Omega.{arith}
use longboy.Prelude.Lists.{length, take, drop}

module _ {ℓ} {A : Type ℓ} where
  abbrev pub slice : List A → ℕ → ℕ → List A
  slice xs i n = take n (drop i xs)

  -- A write past the end is cut off.
  abbrev pub write : List A → ℕ → List A → List A
  write [] i ys = []
  write (x ∷ xs) (suc i) ys = x ∷ write xs i ys
  write (x ∷ xs) zero [] = x ∷ xs
  write (x ∷ xs) zero (y ∷ ys) = y ∷ write xs zero ys

  pub length-write : (xs : List A) (i : ℕ) (ys : List A) → length (write xs i ys) ≡ length xs
  length-write [] i ys = refl
  length-write (x ∷ xs) (suc i) ys = ap suc (length-write xs i ys)
  length-write (x ∷ xs) zero [] = refl
  length-write (x ∷ xs) zero (y ∷ ys) = ap suc (length-write xs zero ys)

  pub length-slice : (xs : List A) (i n : ℕ) → i + n ≤ length xs → length (slice xs i n) ≡ n
  length-slice xs i zero h = refl
  length-slice [] i (suc n) h = absurd (omega arith)
  length-slice (x ∷ xs) zero (suc n) h = ap suc (length-slice xs zero n (omega arith))
  length-slice (x ∷ xs) (suc i) (suc n) h = length-slice xs i (suc n) (omega arith)

  pub slice-write_self :
      (xs : List A) (i n : ℕ) (ys : List A)
      → length ys ≡ n
      → i + n ≤ length xs
      → slice (write xs i ys) i n ≡ ys
  slice-write_self xs i zero [] e h = refl
  slice-write_self xs i zero (y ∷ ys) e h = absurd (omega arith)
  slice-write_self xs i (suc n) [] e h = absurd (omega arith)
  slice-write_self [] i (suc n) (y ∷ ys) e h = absurd (omega arith)
  slice-write_self (x ∷ xs) zero (suc n) (y ∷ ys) e h =
      ap (◌∷◌ y) (slice-write_self xs zero n ys (omega arith) (omega arith))
  slice-write_self (x ∷ xs) (suc i) (suc n) (y ∷ ys) e h =
      slice-write_self xs i (suc n) (y ∷ ys) e (omega arith)

  -- The later of two writes to one range stays.
  pub write-write :
      (xs : List A) (i : ℕ) (ys zs : List A)
      → length ys ≡ length zs
      → write (write xs i ys) i zs ≡ write xs i zs
  write-write [] i ys zs e = refl
  write-write (x ∷ xs) (suc i) ys zs e = ap (◌∷◌ x) (write-write xs i ys zs e)
  write-write (x ∷ xs) zero [] [] e = refl
  write-write (x ∷ xs) zero [] (z ∷ zs) e = absurd (omega arith)
  write-write (x ∷ xs) zero (y ∷ ys) [] e = absurd (omega arith)
  write-write (x ∷ xs) zero (y ∷ ys) (z ∷ zs) e =
      ap (◌∷◌ z) (write-write xs zero ys zs (omega arith))

  pub slice-write_before :
      (xs : List A) (i j n : ℕ) (ys : List A) → j + n ≤ i → slice (write xs i ys) j n ≡ slice xs j n
  slice-write_before xs i j zero ys h = refl
  slice-write_before [] i j (suc n) ys h = refl
  slice-write_before (x ∷ xs) zero j (suc n) ys h = absurd (omega arith)
  slice-write_before (x ∷ xs) (suc i) zero (suc n) ys h =
      ap (◌∷◌ x) (slice-write_before xs i zero n ys (omega arith))
  slice-write_before (x ∷ xs) (suc i) (suc j) (suc n) ys h =
      slice-write_before xs i j (suc n) ys (omega arith)

  drop-write :
      (xs : List A) (i j : ℕ) (ys : List A) → i + length ys ≤ j → drop j (write xs i ys) ≡ drop j xs
  drop-write [] i zero ys h = refl
  drop-write [] i (suc j) ys h = refl
  drop-write (x ∷ xs) zero j [] h = refl
  drop-write (x ∷ xs) zero zero (y ∷ ys) h = absurd (omega arith)
  drop-write (x ∷ xs) zero (suc j) (y ∷ ys) h = drop-write xs zero j ys (omega arith)
  drop-write (x ∷ xs) (suc i) zero ys h = absurd (omega arith)
  drop-write (x ∷ xs) (suc i) (suc j) ys h = drop-write xs i j ys (omega arith)

  pub slice-write_after :
      (xs : List A) (i j n : ℕ) (ys : List A)
      → i + length ys ≤ j
      → slice (write xs i ys) j n ≡ slice xs j n
  slice-write_after xs i j n ys h = ap (take n) (drop-write xs i j ys h)

  -- A write that starts behind a prefix, and one that covers exactly the prefix.
  pub write-append :
      (h xs : List A) (i : ℕ) (ys : List A) → write (h ++ xs) (length h + i) ys ≡ h ++ write xs i ys
  write-append [] xs i ys = let e : 0 + i ≡ i = omega arith in rw e refl
  write-append (x ∷ h) xs i ys =
      let e : suc (length h) + i ≡ suc (length h + i) = omega arith in
      rw e (ap (◌∷◌ x) (write-append h xs i ys))

  pub write-nil : (xs : List A) → write xs 0 [] ≡ xs
  write-nil [] = refl
  write-nil (x ∷ xs) = refl

  pub write_front : (h xs ys : List A) → length ys ≡ length h → write (h ++ xs) 0 ys ≡ ys ++ xs
  write_front [] xs [] e = write-nil xs
  write_front [] xs (y ∷ ys) e = absurd (omega arith)
  write_front (x ∷ h) xs [] e = absurd (omega arith)
  write_front (x ∷ h) xs (y ∷ ys) e = ap (◌∷◌ y) (write_front h xs ys (omega arith))

  pub slice_front : (h xs : List A) (n : ℕ) → length h ≡ n → slice (h ++ xs) 0 n ≡ h
  slice_front [] xs zero e = refl
  slice_front [] xs (suc n) e = absurd (omega arith)
  slice_front (x ∷ h) xs zero e = absurd (omega arith)
  slice_front (x ∷ h) xs (suc n) e = ap (◌∷◌ x) (slice_front h xs n (omega arith))

  pub drop-append : (h xs : List A) (i : ℕ) → drop (length h + i) (h ++ xs) ≡ drop i xs
  drop-append [] xs i = let e : 0 + i ≡ i = omega arith in rw e refl
  drop-append (x ∷ h) xs i =
      let e : suc (length h) + i ≡ suc (length h + i) = omega arith in rw e (drop-append h xs i)

  pub slice-append : (h xs : List A) (i n : ℕ) → slice (h ++ xs) (length h + i) n ≡ slice xs i n
  slice-append h xs i n = ap (take n) (drop-append h xs i)
