-- ===== src/Proto/Sender.antt =====
-- crates/longboy/src/proto/sender.rs. `Frame` gives the datagram as its header and slots, and
-- `Refine` proves that polling is an update of a ring of payloads.
pub mod Frame
pub mod Refine
use longboy.Prelude.{
  ℕ, ◌+◌, ◌*◌, ◌%◌, ◌^◌, ◌≡◌, Bool, true, false, Option, none, some, List, length, set, replicate,
  any, if◌then◌else◌,
}
use longboy.Prelude.Slices.{slice, write}
use longboy.Prelude.Bytes.{to_le_bytes}
use longboy.Proto.Constants.{Constants, datagram_size, max_cycle}
use longboy.Proto.Cipher
use longboy.Proto.Cipher.{Rc5, Cipher, encrypt_header, encrypt_slot}

-- `trait Source<SIZE>`: `poll` may write to the slot it is handed, and says whether it has input.
pub record Source (size : ℕ) (S : Type 0) : Type 0 where
  pub poll : S → List ℕ → Bool × List ℕ × S
  pub length-poll : (s : S) (b : List ℕ) → length b ≡ size → length (poll s b).1 ≡ size

pub record Sender (S : Type 0) : Type 0 where
  pub source : S
  pub cipher : Cipher
  pub cycle : ℕ
  pub flags : List Bool
  pub buffer : List ℕ

-- `start` of the slot with number `index`.
abbrev pub slot_start : ℕ → ℕ → ℕ
slot_start size index = 2 * 2 + size * index

module _ (k : Constants) {S : Type 0} where
  unfoldable pub new : ℕ → S → Sender S
  unfolding datagram_size Cipher.new
  new cipher_key source = record {
    source = source;
    cipher = Cipher.new cipher_key;
    cycle = 0;
    flags = replicate k.window_size false;
    buffer = replicate (datagram_size k) 0;
  }

-- Record cycle and timestamp; `self.cycle as u16` is the cycle modulo 2 ^ 16.
unfoldable pub stamp : {S : Type 0} → Rc5 → Sender S → ℕ → List ℕ
stamp rc5 s timestamp =
    let cycled = write s.buffer 0 (to_le_bytes 2 (s.cycle % 2 ^ 16)) in
    let stamped = write cycled 2 (to_le_bytes 2 timestamp) in
    write stamped 0 (encrypt_header rc5 s.cipher (slice stamped 0 4))

module _ (rc5 : Rc5) (k : Constants) {S : Type 0} where
  -- What happens to the slot at `index` when the source has answered.
  unfoldable pub store : Sender S → ℕ → List ℕ → Bool → List ℕ → S → Sender S
  store s index buffer ready slot source =
      let start = slot_start k.size index in
      let polled = write buffer start slot in
      elim ready [
        | true ↦ record s {
          source = source;
          flags = set s.flags index true;
          buffer = write polled start (encrypt_slot rc5 s.cipher (slice polled start k.size));
        }
        | false ↦ record s {
          source = source;
          flags = set s.flags index false;
          buffer = write polled start (replicate k.size 0);
        }
      ]

  -- Check for transmit and potentially advance cycle.
  unfoldable pub transmit : Sender S → Sender S × Option (List ℕ)
  transmit s =
      if any s.flags
      then (record s { cycle = (s.cycle + 1) % max_cycle k }, some s.buffer)
      else (s, none)

  unfoldable pub poll_datagram : Source k.size S → Sender S → ℕ → Sender S × Option (List ℕ)
  poll_datagram source s timestamp =
      let buffer = stamp rc5 s timestamp in
      let index = s.cycle % k.window_size in
      let (ready, slot, source') =
        source.poll s.source (slice buffer (slot_start k.size index) k.size) in
      transmit (store s index buffer ready slot source')
