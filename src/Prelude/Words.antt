-- ===== src/Prelude/Words.antt =====
-- Three words of eight bytes at the front of a buffer.
use longboy.Prelude.{ℕ, ◌≤◌, ◌≡◌, ◌∙◌, arith, List, length}
use longboy.Prelude.Slices.{
  slice, write, length-write, slice-write_self, slice-write_before, slice-write_after,
}

abbrev pub three_words : List ℕ → List ℕ → List ℕ → List ℕ → List ℕ
three_words buffer a b c = write (write (write buffer 0 a) 8 b) 16 c

module _ (buffer a b c : List ℕ) (fits : 24 ≤ length buffer) (wide_a : length a ≡ 8)
    (wide_b : length b ≡ 8) (wide_c : length c ≡ 8) where
  pub length-three_words : length (three_words buffer a b c) ≡ length buffer
  length-three_words =
      length-write (write (write buffer 0 a) 8 b) 16 c
      ∙ length-write (write buffer 0 a) 8 b
      ∙ length-write buffer 0 a

  pub three_words_lem :
      (slice (three_words buffer a b c) 0 8 ≡ a)
      × (slice (three_words buffer a b c) 8 8 ≡ b)
      × (slice (three_words buffer a b c) 16 8 ≡ c)
  three_words_lem =
      let one = write buffer 0 a in
      let two = write one 8 b in
      let size1 = length-write buffer 0 a in
      let size2 = length-write one 8 b ∙ size1 in
      (
        slice-write_before two 16 0 8 c (omega arith)
            ∙ slice-write_before one 8 0 8 b (omega arith)
            ∙ slice-write_self buffer 0 8 a wide_a (omega arith),
        slice-write_before two 16 8 8 c (omega arith)
            ∙ slice-write_self one 8 8 b wide_b (omega (arith, size1)),
        slice-write_self two 16 8 c wide_c (omega (arith, size2)),
      )

  -- What lies behind them stays.
  pub three_words_after :
      (i n : ℕ) → 24 ≤ i → slice (three_words buffer a b c) i n ≡ slice buffer i n
  three_words_after i n behind =
      let one = write buffer 0 a in
      slice-write_after (write one 8 b) 16 i n c (omega (arith, wide_c))
      ∙ slice-write_after one 8 i n b (omega (arith, wide_b))
      ∙ slice-write_after buffer 0 i n a (omega (arith, wide_a))
