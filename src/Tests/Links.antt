-- ===== src/Tests/Links.antt =====
-- Two polls of which the first one's datagram is lost.
use longboy.Prelude.{ℕ, ◌≡◌, refl, arith, Option, none, some, List, [], ◌∷◌, replicate}
use longboy.Prelude.Bytes.{to_le_bytes}
use longboy.Proto.Constants.{datagram_size, max_cycle}
use longboy.Proto.Cipher
use longboy.Proto.Cipher.{Cipher, map_chunks, encrypt_header, encrypt_slot}
use longboy.Proto.Sender
use longboy.Proto.Sender.{Sender, stamp, store, transmit, poll_datagram}
use longboy.Proto.Sender.Refine.{Carries, new-Carries}
use longboy.Proto.Receiver
use longboy.Proto.Receiver.{Receiver, bytes_eq, handle_datagram}
use longboy.Proto.Link.Frames.{AllShow}
use longboy.Proto.Link.Sends.{Sends, idle, send}
use longboy.Proto.Link.Burst.{InSync, burst_recovered}
use longboy.Proto.Link.Session.{Session, start, burst, delivers_all_from_new}
use longboy.Tests.{
  triple, triple-IsValid, swap, counter, collect, key, new_sender, behind, sent, first_poll,
  second_poll, fresh, caught_up,
}

abbrev pub inputs : List (Option (List ℕ))
inputs = some (2 ∷ 2 ∷ []) ∷ some (1 ∷ 1 ∷ []) ∷ []

pub first_sends : first_poll ≡ (behind first_poll, some (sent first_poll))
unfolding poll_datagram stamp store transmit Sender.new Cipher.new encrypt_header encrypt_slot
    map_chunks to_le_bytes datagram_size max_cycle
first_sends = refl

pub second_sends : second_poll ≡ (behind second_poll, some (sent second_poll))
unfolding poll_datagram stamp store transmit Sender.new Cipher.new encrypt_header encrypt_slot
    map_chunks to_le_bytes datagram_size max_cycle
second_sends = refl

two_polls :
    Sends swap triple-IsValid
      (counter 2)
      new_sender
      inputs
      (behind second_poll)
      1
      6
      (sent second_poll)
unfolding poll_datagram stamp store transmit Sender.new Cipher.new encrypt_header encrypt_slot
    map_chunks to_le_bytes datagram_size max_cycle
two_polls = send (send idle 5 first_sends) 6 second_sends

pub inputs_show : AllShow swap (Cipher.new key) 2 inputs
unfolding bytes_eq encrypt_slot map_chunks Cipher.new
inputs_show = (refl, (refl, tt))

whole_run :
    Session swap triple-IsValid
      (counter 2)
      collect
      new_sender
      fresh
      (behind second_poll)
      caught_up
      inputs
unfolding Sender.new
whole_run =
    burst start two_polls (omega arith) (omega arith) (omega arith) inputs_show 10 (omega arith)
      (omega arith) (omega arith)

delivers_all_from_new_example :
    InSync swap triple (behind second_poll) caught_up
    × (caught_up.sink ≡ (1 ∷ 1 ∷ []) ∷ (2 ∷ 2 ∷ []) ∷ [])
delivers_all_from_new_example =
    delivers_all_from_new swap triple-IsValid (counter 2) collect key 1 [] whole_run

pub empty_ring : Carries swap triple new_sender (replicate 3 none) (replicate 4 0)
empty_ring = new-Carries swap triple-IsValid key 1

pub in_sync : InSync swap triple new_sender fresh
in_sync = (delivers_all_from_new swap triple-IsValid (counter 2) collect key 1 [] start).0

burst_recovered_example :
    InSync swap triple (behind second_poll) caught_up
    × (caught_up.sink ≡ (1 ∷ 1 ∷ []) ∷ (2 ∷ 2 ∷ []) ∷ [])
unfolding Receiver.new Sender.new
burst_recovered_example =
    burst_recovered swap triple-IsValid (counter 2) collect fresh 10 (replicate 3 none)
      (replicate 4 0) empty_ring in_sync two_polls (omega arith) (omega arith) (omega arith)
      (omega arith) (omega arith) (omega arith) (tt, (tt, (tt, tt))) inputs_show
