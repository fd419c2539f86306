-- ===== src/ClientProgram/Words.antt =====
-- The payload that the client's source fills (crates/longboy-client-cli/src/main.rs).
use longboy.Prelude.{
  ℕ, ◌^◌, ◌<◌, ◌≤◌, ◌≡◌, refl, ◌∙◌, ap, arith, Bool, true, some, List, ◌∷◌, length,
}
use longboy.Prelude.Slices.{slice}
use longboy.Prelude.Words.{three_words, length-three_words, three_words_lem, three_words_after}
use longboy.Prelude.Bytes.{
  to_le_bytes, from_le_bytes, length-to_le_bytes, from_le_bytes-to_le_bytes,
}
use longboy.ClientProgram.{Inputs, poll}

-- A poll of the client program's source, with a buffer of 32 bytes and a message of three inputs
-- below 2 ^ 64 at the front of its channel, takes that message and leaves the others in the
-- channel; read as little-endian numbers, the first three words of the payload are the inputs, in
-- their order, and the last 8 of its 32 bytes are as they were.
pub poll_words :
    (connected : Bool) (inputs : Inputs) (queue : List Inputs) (buffer : List ℕ)
    → inputs.input0 < 2 ^ 64
    → inputs.input1 < 2 ^ 64
    → inputs.input2 < 2 ^ 64
    → length buffer ≡ 32
    → (payload : List ℕ) × (poll connected buffer (inputs ∷ queue) ≡ some (true, payload, queue))
      × (length payload ≡ 32)
      × (from_le_bytes (slice payload 0 8) ≡ inputs.input0)
      × (from_le_bytes (slice payload 8 8) ≡ inputs.input1)
      × (from_le_bytes (slice payload 16 8) ≡ inputs.input2)
      × (slice payload 24 8 ≡ slice buffer 24 8)
unfolding poll
poll_words connected inputs queue buffer ha hb hc size =
    let a = to_le_bytes 8 inputs.input0 in
    let b = to_le_bytes 8 inputs.input1 in
    let c = to_le_bytes 8 inputs.input2 in
    let wide_a = length-to_le_bytes 8 inputs.input0 in
    let wide_b = length-to_le_bytes 8 inputs.input1 in
    let wide_c = length-to_le_bytes 8 inputs.input2 in
    let fits : 24 ≤ length buffer = omega (arith, size) in
    let (ea, eb, ec) = three_words_lem buffer a b c fits wide_a wide_b wide_c in
    (
      three_words buffer a b c,
      refl,
      length-three_words buffer a b c fits wide_a wide_b wide_c ∙ size,
      ap from_le_bytes ea ∙ from_le_bytes-to_le_bytes 8 inputs.input0 (omega arith),
      ap from_le_bytes eb ∙ from_le_bytes-to_le_bytes 8 inputs.input1 (omega arith),
      ap from_le_bytes ec ∙ from_le_bytes-to_le_bytes 8 inputs.input2 (omega arith),
      three_words_after buffer a b c fits wide_a wide_b wide_c 24 8 (omega arith),
    )
