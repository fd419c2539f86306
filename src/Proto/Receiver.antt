-- ===== src/Proto/Receiver.antt =====
-- crates/longboy/src/proto/receiver.rs. Logging is left out.
pub mod Buffer
pub mod Slots
pub mod Cycles
pub mod Invariant
pub mod Recover
pub mod Rejects
pub mod Repeats
pub mod Arrived
pub mod AnyOrder
use longboy.Prelude.{
  ℕ, zero, suc, ◌+◌, ◌-◌, ◌%◌, ◌^◌, ◌≡◌, Bool, true, false, ◌&&◌, ◌||◌, List, [], ◌∷◌, length,
  get_or, set, replicate, ltb, ◌==◌, if◌then◌else◌,
}
use longboy.Prelude.Slices.{slice, write}
use longboy.Prelude.Bytes.{from_le_bytes}
use longboy.Proto.Constants.{Constants, max_cycle, max_buffered}
use longboy.Proto.Cipher
use longboy.Proto.Cipher.{Rc5, Cipher, decrypt_header, decrypt_slot}
use longboy.Proto.Sender.{slot_start}

-- `trait Sink<SIZE>`.
pub record Sink (K : Type 0) : Type 0 where
  pub handle : K → List ℕ → K

pub record Receiver (K : Type 0) : Type 0 where
  pub sink : K
  pub cipher : Cipher
  pub cycle : ℕ
  pub flags : List Bool

-- Equality of arrays.
unfoldable pub bytes_eq : List ℕ → List ℕ → Bool
bytes_eq [] [] = true
bytes_eq [] (b ∷ bs) = false
bytes_eq (a ∷ as') [] = false
bytes_eq (a ∷ as') (b ∷ bs) = a == b && bytes_eq as' bs

module _ (k : Constants) {K : Type 0} where
  unfoldable pub new : ℕ → K → Receiver K
  unfolding Cipher.new
  new cipher_key sink = record {
    sink = sink;
    cipher = Cipher.new cipher_key;
    cycle = 0;
    flags = replicate (max_buffered k) false;
  }

  -- Clear the flag of the local cycle, and go on to the next.
  unfoldable pub next_cycle : Receiver K → Receiver K
  next_cycle r = record r {
    flags = set r.flags (r.cycle % max_buffered k) false;
    cycle = (r.cycle + 1) % max_cycle k;
  }

  -- `for _ in 0..n`: give up on the `n` oldest cycles.
  unfoldable pub skip_cycles : ℕ → Receiver K → Receiver K
  skip_cycles zero r = r
  skip_cycles (suc n) r = skip_cycles n (next_cycle r)

  -- The loop that advances the cycle while its flag is set. Each round clears a flag, so a fuel of
  -- `MAX_BUFFERED` rounds is enough (`Cycles.advance_stops`).
  unfoldable pub advance : ℕ → Receiver K → Receiver K
  advance zero r = r
  advance (suc fuel) r =
      let rest = advance fuel (next_cycle r) in
      if get_or r.flags (r.cycle % max_buffered k) false then rest else r

module _ (rc5 : Rc5) (k : Constants) {K : Type 0} (sink : Sink K) where
  -- One slot of the datagram, decrypted in place and handed to the sink if its cycle is new and it
  -- holds anything.
  unfoldable pub sink_slot : ℕ → Receiver K × List ℕ → Receiver K × List ℕ
  sink_slot cycle_i (r, datagram) =
      let start = slot_start k.size (cycle_i % k.window_size) in
      let destination_index = cycle_i % max_buffered k in
      let seen = record r { flags = set r.flags destination_index true } in
      let decrypted =
        write datagram start (decrypt_slot rc5 r.cipher (slice datagram start k.size)) in
      let handled = record seen { sink = sink.handle r.sink (slice decrypted start k.size) } in
      if get_or r.flags destination_index false
      then (r, datagram)
      else (if bytes_eq (slice datagram start k.size) (replicate k.size 0)
          then (seen, datagram)
          else (handled, decrypted))

  -- `for i in 0..WINDOW_SIZE` with `n` rounds left, from the newest cycle back to the first that
  -- lies before the local cycle.
  unfoldable pub sink_input : ℕ → ℕ → ℕ → Receiver K × List ℕ → Receiver K × List ℕ
  sink_input zero i datagram_cycle (r, datagram) = (r, datagram)
  sink_input (suc n) i datagram_cycle (r, datagram) =
      let cycle_i = (datagram_cycle + max_cycle k - i) % max_cycle k in
      let rest = sink_input n (i + 1) datagram_cycle (sink_slot cycle_i (r, datagram)) in
      if ltb (max_buffered k) ((cycle_i + max_cycle k - r.cycle) % max_cycle k)
      then (r, datagram)
      else rest

  -- The datagram with its header decrypted, and the two words of the header.
  unfoldable pub open_header : Receiver K → List ℕ → List ℕ
  open_header r datagram = write datagram 0 (decrypt_header rc5 r.cipher (slice datagram 0 4))

  unfoldable pub accept : ℕ → ℕ → Receiver K × List ℕ → Receiver K × List ℕ
  accept datagram_cycle cycle_diff (r, datagram) =
      let caught_up =
        if ltb (max_buffered k) cycle_diff
        then skip_cycles k (cycle_diff - max_buffered k) r
        else r in
      let (r', datagram') = sink_input k.window_size 0 datagram_cycle (caught_up, datagram) in
      (advance k (max_buffered k) r', datagram')

  unfoldable pub handle_datagram : Receiver K → ℕ → List ℕ → Receiver K × List ℕ
  handle_datagram r timestamp datagram =
      let opened = open_header r datagram in
      let datagram_cycle = from_le_bytes (slice opened 0 2) in
      let datagram_timestamp = from_le_bytes (slice opened 2 2) in
      let cycle_diff = (datagram_cycle + max_cycle k - r.cycle) % max_cycle k in
      let timestamp_diff = (timestamp + 2 ^ 16 - datagram_timestamp) % 2 ^ 16 in
      if ltb 256 cycle_diff || ltb 2048 timestamp_diff
      then (r, opened)
      else accept datagram_cycle cycle_diff (r, opened)
