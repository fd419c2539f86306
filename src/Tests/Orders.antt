-- ===== src/Tests/Orders.antt =====
-- Two datagrams that arrive in the wrong order, and one of them twice.
use longboy.Prelude.{
  ℕ, ◌+◌, ◌-◌, ◌^◌, ◌%◌, ◌≡◌, ◌≤◌, refl, arith, false, List, [], ◌∷◌, if◌then◌else◌,
}
use longboy.Prelude.Bytes.{to_le_bytes}
use longboy.Proto.Constants.{datagram_size, max_cycle, max_buffered}
use longboy.Proto.Cipher
use longboy.Proto.Cipher.{map_chunks, encrypt_header, encrypt_slot}
use longboy.Proto.Sender
use longboy.Proto.Sender.{stamp, store, transmit, poll_datagram}
use longboy.Proto.Receiver
use longboy.Proto.Receiver.{bytes_eq}
use longboy.Proto.Link.AnyOrder.{deliver}
use longboy.Proto.Link.Tally.{tally}
use longboy.Proto.Link.Stream.{input_of, Run, start, send}
use longboy.Proto.Link.Unordered.{
  Pick, Comes, AllCome, any_picked, receive_picks, receive_picks_exactly_once,
}
use longboy.Tests.Links.{first_sends, second_sends, inputs, inputs_show}
use longboy.Tests.{
  triple, triple-IsValid, swap, counter, collect, key, new_sender, behind, sent, first_poll,
  second_poll, fresh,
}

abbrev both_sent : List (ℕ × List ℕ)
both_sent = (6, sent second_poll) ∷ (5, sent first_poll) ∷ []

both-Run : Run swap triple-IsValid (counter 2) new_sender inputs both_sent (behind second_poll)
unfolding poll_datagram stamp store transmit Sender.new Cipher.new encrypt_header encrypt_slot
    map_chunks to_le_bytes datagram_size max_cycle
both-Run = send (send start 5 first_sends) 6 second_sends

abbrev wrong_order : List Pick
wrong_order =
    record { cycle = 1; now = 10 }
    ∷ record { cycle = 0; now = 11 }
    ∷ record { cycle = 1; now = 12 }
    ∷ []

second-Comes :
    (now : ℕ)
    → (now + 2 ^ 16 - 6) % 2 ^ 16 ≤ 2048
    → Comes both_sent (record { cycle = 1; now = now })
second-Comes now late = record {
  timestamp = 6;
  datagram = sent second_poll;
  sent = refl;
  stamped = omega arith;
  late = late;
}

all_come : AllCome triple both_sent (λ x. false) wrong_order
unfolding max_buffered
all_come =
    let first_comes : Comes both_sent (record { cycle = 0; now = 11 }) = record {
      timestamp = 5;
      datagram = sent first_poll;
      sent = refl;
      stamped = omega arith;
      late = omega arith;
    } in
    (
      second-Comes 10 (omega arith),
      λ x e. (omega arith, omega arith),
      (
        first_comes,
        λ x e. (omega arith, omega arith),
        (second-Comes 12 (omega arith), λ x e. (omega arith, omega arith), tt),
      ),
    )

receive_picks_exactly_once_example :
    (handed : List ℕ) × ((receive_picks swap triple-IsValid collect both_sent fresh
        wrong_order).sink
      ≡ deliver swap triple-IsValid collect (input_of inputs) [] handed)
    × ((x : ℕ) → tally x handed ≡ (if any_picked triple x wrong_order then 1 else 0))
unfolding Receiver.new max_buffered max_cycle
receive_picks_exactly_once_example =
    receive_picks_exactly_once swap triple-IsValid collect (counter 2) key 1 [] wrong_order both-Run
      inputs_show (omega arith) all_come
