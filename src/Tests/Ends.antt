-- ===== src/Tests/Ends.antt =====
-- One end of a link at a time: constants, cipher, sender and receiver.
use longboy.Prelude.{
  ℕ, ◌+◌, ◌-◌, ◌%◌, ◌^◌, ◌≤◌, ◌<◌, ◌≡◌, ◌≢◌, refl, arith, Bool, true, false, Option, none, some,
  List, [], ◌∷◌, ◌++◌, foldl, length, get_or, set, replicate, get_or-replicate, drop,
}
use longboy.Prelude.Bytes.{to_le_bytes, from_le_bytes}
use longboy.Proto.Constants.{datagram_size, max_cycle, max_buffered}
use longboy.Proto.Constants.Bounds.{ranges}
use longboy.Proto.Constants.Indices.{destination_index_apart}
use longboy.Proto.Cipher
use longboy.Proto.Cipher.{
  Cipher, map_chunks, encrypt_header, decrypt_header, encrypt_slot, decrypt_slot,
}
use longboy.Proto.Cipher.RoundTrip.{decrypt_slot-encrypt_slot, drop-encrypt_slot}
use longboy.Proto.Sender
use longboy.Proto.Sender.{Sender, poll_datagram}
use longboy.Proto.Sender.Frame.{header, body}
use longboy.Proto.Sender.Refine.{Carries, poll_datagram_refines, new-Carries}
use longboy.Proto.Receiver
use longboy.Proto.Receiver.{
  Receiver, bytes_eq, skip_cycles, advance, open_header, accept, handle_datagram,
}
use longboy.Proto.Receiver.Cycles.{InRange, IsWaiting, new-InRange, advance_stops}
use longboy.Proto.Receiver.Invariant.{Safe, header_cycle, handle_datagram_safe}
use longboy.Proto.Receiver.Recover.{IsClear}
use longboy.Proto.Receiver.Rejects.{handle_datagram-passed}
use longboy.Proto.Receiver.Repeats.{handle_datagram_repeats}
use longboy.Proto.Link.Frames.{handle_datagram_recovers}
use longboy.Tests.{
  single, single-IsValid, triple, triple-IsValid, swap, counter, collect, key, new_sender, sent,
  first_poll, second_poll, fresh, caught_up,
}

ranges_example : (3 < max_buffered triple) × (8 ≤ max_buffered triple) × (65119 < max_cycle triple)
ranges_example = let r = ranges triple-IsValid in (r.2, r.3, r.5)

destination_index_apart_example :
    (65534 + 2) % max_cycle triple % max_buffered triple ≢ 65534 % max_buffered triple
unfolding max_cycle
destination_index_apart_example =
    destination_index_apart triple-IsValid 65534 2 (omega arith) (omega arith) (omega arith)

ten : List ℕ
ten = 1 ∷ 2 ∷ 3 ∷ 4 ∷ 5 ∷ 6 ∷ 7 ∷ 8 ∷ 9 ∷ 10 ∷ []

decrypt_slot-encrypt_slot_example :
    decrypt_slot swap (Cipher.new key) (encrypt_slot swap (Cipher.new key) ten) ≡ ten
decrypt_slot-encrypt_slot_example = decrypt_slot-encrypt_slot swap (Cipher.new key) ten

drop-encrypt_slot_example : drop 8 (encrypt_slot swap (Cipher.new key) ten) ≡ 9 ∷ 10 ∷ []
unfolding ten
drop-encrypt_slot_example = drop-encrypt_slot swap (Cipher.new key) ten

empty_ring : Carries swap triple new_sender (replicate 3 none) (replicate 4 0)
empty_ring = new-Carries swap triple-IsValid key 1

poll_datagram_refines_example :
    first_poll.1
    ≡ some (
        header swap (Cipher.new key) 0 5
        ++ body swap (Cipher.new key) 2 (some (1 ∷ 1 ∷ []) ∷ none ∷ none ∷ []))
unfolding Sender.new
poll_datagram_refines_example =
    longboy.Prelude.ap (λ w. w.1)
      (poll_datagram_refines swap triple-IsValid (counter 2) new_sender 5 (replicate 3 none)
        (replicate 4 0) empty_ring)

in_range : InRange triple fresh × IsWaiting triple fresh
in_range = new-InRange triple-IsValid key []

nothing_buffered : IsClear triple fresh
unfolding Receiver.new
nothing_buffered = record {
  in_ring = in_range.0.in_ring;
  size = in_range.0.size;
  clear = λ i. get_or-replicate (max_buffered triple) false i;
}

second_size : length (sent second_poll) ≡ datagram_size triple
unfolding poll_datagram Sender.transmit Sender.store Sender.new Sender.stamp to_le_bytes
    encrypt_header encrypt_slot map_chunks Cipher.new datagram_size max_cycle max_buffered
second_size = refl

handle_datagram_safe_example :
    Safe swap triple-IsValid collect fresh
      (open_header swap triple collect fresh (sent second_poll))
      (header_cycle swap triple-IsValid collect fresh (sent second_poll))
      caught_up
handle_datagram_safe_example =
    handle_datagram_safe swap triple-IsValid collect fresh 10 (sent second_poll) in_range.0
      in_range.1 second_size

-- Two cycles have arrived.
ahead_of_us : Receiver (List (List ℕ))
ahead_of_us = record fresh { flags = set (set fresh.flags 0 true) 1 true }

advance_stops_example : IsWaiting triple (advance triple (max_buffered triple) ahead_of_us)
unfolding ahead_of_us Receiver.new max_cycle max_buffered
advance_stops_example =
    advance_stops triple-IsValid ahead_of_us (record { in_ring = omega arith; size = refl })

handle_datagram_recovers_example :
    let frame =
      header swap (Cipher.new key) 1 6
      ++ body swap (Cipher.new key) 2 (some (1 ∷ 1 ∷ []) ∷ some (2 ∷ 2 ∷ []) ∷ none ∷ []) in
    (handle_datagram swap triple collect fresh 10 frame).0.sink ≡ (1 ∷ 1 ∷ []) ∷ (2 ∷ 2 ∷ []) ∷ []
unfolding Receiver.new max_cycle bytes_eq encrypt_slot map_chunks Cipher.new
handle_datagram_recovers_example =
    (handle_datagram_recovers swap triple-IsValid collect fresh 2 10 6
      (some (1 ∷ 1 ∷ []) ∷ some (2 ∷ 2 ∷ []) ∷ none ∷ []) nothing_buffered (omega arith)
      (omega arith) (omega arith) (omega arith) (omega arith) (omega arith) (refl, (refl, (tt, tt)))
      refl (refl, (refl, (tt, tt)))).3

-- The second copy of a datagram, which leaves by another socket.
handle_datagram-passed_example :
    (handle_datagram swap triple collect caught_up 10 (sent second_poll)).0 ≡ caught_up
unfolding poll_datagram Sender.transmit Sender.store Sender.new Sender.stamp to_le_bytes
    encrypt_header encrypt_slot map_chunks Cipher.new datagram_size max_cycle max_buffered
    Receiver.new Receiver.open_header bytes_eq decrypt_header decrypt_slot from_le_bytes
    Receiver.handle_datagram Receiver.accept Receiver.sink_input Receiver.sink_slot
    Receiver.next_cycle advance
handle_datagram-passed_example =
    handle_datagram-passed swap triple-IsValid collect caught_up 10 1 (sent second_poll)
      (record { in_ring = omega arith; size = refl }) (omega arith) (omega arith) refl

-- Cycle 8 at time 5, and one payload.
abbrev one_buffer_ahead : List ℕ
one_buffer_ahead = 0 ∷ 5 ∷ 0 ∷ 8 ∷ 9 ∷ 9 ∷ 9 ∷ 9 ∷ []

abbrev lone : Receiver (List (List ℕ))
lone = Receiver.new single key []

lone-InRange : InRange single lone × IsWaiting single lone
lone-InRange = new-InRange single-IsValid key []

lone-IsClear : IsClear single lone
unfolding Receiver.new
lone-IsClear = record {
  in_ring = lone-InRange.0.in_ring;
  size = lone-InRange.0.size;
  clear = λ i. get_or-replicate (max_buffered single) false i;
}

handle_datagram_repeats_example :
    let q = (handle_datagram swap single collect lone 10 one_buffer_ahead).0 in
    (handle_datagram swap single collect q 11 one_buffer_ahead).0.sink
    ≡ (9 ∷ 9 ∷ 9 ∷ 9 ∷ []) ∷ (9 ∷ 9 ∷ 9 ∷ 9 ∷ []) ∷ []
unfolding poll_datagram Sender.transmit Sender.store Sender.new Sender.stamp to_le_bytes
    encrypt_header encrypt_slot map_chunks Cipher.new datagram_size max_cycle max_buffered
    Receiver.new Receiver.open_header bytes_eq decrypt_header decrypt_slot from_le_bytes
handle_datagram_repeats_example =
    handle_datagram_repeats swap single-IsValid collect lone 10 11 one_buffer_ahead
      (9 ∷ 9 ∷ 9 ∷ 9 ∷ []) refl lone-IsClear refl (omega arith) refl refl (omega arith)
      (omega arith)
