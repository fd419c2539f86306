-- ===== src/Tests/Clients.antt =====
-- The two tasks of a client.
use longboy.Prelude.{ℕ, ◌≡◌, refl, arith, true, List, [], ◌∷◌, ◌++◌, replicate}
use longboy.Proto.Sender
use longboy.Prelude.Bytes.{to_le_bytes}
use longboy.Proto.Constants.{datagram_size, max_cycle, max_buffered}
use longboy.Proto.Cipher
use longboy.Proto.Cipher.{map_chunks, encrypt_header, encrypt_slot}
use longboy.Proto.Sender.{Sender, stamp, store, transmit, poll_datagram}
use longboy.Proto.Receiver.Cycles.{InRange, IsWaiting, new-InRange}
use longboy.Effects.{into_usize, Env, done, panic}
use longboy.Client.ToServer.{ClientToServerSender, poll}
use longboy.Client.ToServer.Laws.{beats, copies, poll_lem, poll-overflow}
use longboy.Client.FromServer.{process_datagrams}
use longboy.Client.FromServer.Laws.{
  handle_all, process_datagrams-handle_all, process_datagrams-keeps,
}
use longboy.Effects.{ClientToServerSchema, ServerToClientSchema}
use longboy.Builders.{contains}
use longboy.Client.Builder.{ClientBuilder, sender_with_sockets}
use longboy.Client.Builder.Ports.{Adds, IsSending, sender_with_sockets_lem}
use longboy.Tests.{
  triple, triple-IsValid, swap, counter, collect, key, new_sender, behind, sent, first_poll,
  second_poll, fresh,
}

abbrev pub checked : Env
checked = record { send_to = λ p. true; overflow_checks = true }

-- Session 9 at the mapper 100 with a heartbeat every 2000 ms.
abbrev pub task : ClientToServerSender ℕ
task = record {
  name = "voice";
  mapper_socket_addr = 100;
  heartbeat_period = 2000;
  socket_addr = 200;
  sockets = into_usize;
  session_id = 9;
  next_heartbeat = 0;
  sender = new_sender;
}

poll_lem_example :
    poll swap triple (counter 2) checked task 5
    ≡ done
        (record task { next_heartbeat = 2005; sender = behind first_poll })
        (beats task ++ copies task (first_poll.1))
unfolding poll_datagram transmit store Sender.new stamp to_le_bytes encrypt_header encrypt_slot
    map_chunks Cipher.new datagram_size max_cycle max_buffered
poll_lem_example =
    poll_lem swap triple (counter 2) checked task 5 (omega arith) (refl, (refl, (refl, tt)))
      (refl, (refl, (refl, tt)))

poll-overflow_example : poll swap triple (counter 2) checked task 64000 ≡ panic
poll-overflow_example =
    poll-overflow swap triple (counter 2) checked task 64000 refl (omega arith) (omega arith)
      (refl, (refl, (refl, tt)))

-- A datagram of the right length between two others.
abbrev arrivals : List (List ℕ)
arrivals = (1 ∷ 2 ∷ []) ∷ sent second_poll ∷ replicate 600 0 ∷ []

process_datagrams-handle_all_example :
    process_datagrams swap triple collect 10 arrivals (replicate 512 0) fresh
    ≡ handle_all swap triple-IsValid collect 10 arrivals fresh
process_datagrams-handle_all_example =
    process_datagrams-handle_all swap triple-IsValid collect 10 arrivals (replicate 512 0) fresh
      refl

process_datagrams-keeps_example :
    let r' = process_datagrams swap triple collect 10 arrivals (replicate 512 0) fresh in
    InRange triple r' × IsWaiting triple r'
process_datagrams-keeps_example =
    process_datagrams-keeps swap triple-IsValid collect 10 arrivals (replicate 512 0) fresh refl
      (new-InRange triple-IsValid key []).0 (new-InRange triple-IsValid key []).1

abbrev joined : ClientBuilder ℕ (List (List ℕ))
joined = record {
  session = record { ip_addr = 1; session_id = 9; cipher_key = 7 };
  ports = 8080 ∷ [];
  tasks = [];
}

abbrev input_schema : ClientToServerSchema
input_schema = record { name = "Input"; mapper_port = 8081; heartbeat_period = 100; port = 8082 }

abbrev state_schema : ServerToClientSchema
state_schema = record { name = "State"; mapper_port = 8080; heartbeat_period = 100 }

sender_with_sockets_lem_example : Adds joined (8082 ∷ 8081 ∷ []) (IsSending input_schema) (
    sender_with_sockets triple
      (λ socket. true)
      (λ kind name. name)
      joined
      input_schema
      into_usize
      1)
unfolding contains
sender_with_sockets_lem_example =
    sender_with_sockets_lem triple (λ socket. true) (λ kind name. name) joined input_schema
      into_usize 1 (refl, tt)
