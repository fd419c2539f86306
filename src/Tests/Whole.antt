-- ===== src/Tests/Whole.antt =====
-- A client and a server together, and the server's sending task.
use longboy.Prelude.{
  ℕ, ◌+◌, ◌==◌, if◌then◌else◌, ◌≡◌, refl, arith, true, false, none, some, List, [], ◌∷◌, ◌++◌, map,
  replicate,
}
use longboy.Prelude.Bytes.{to_le_bytes}
use longboy.Proto.Cipher
use longboy.Proto.Cipher.{map_chunks, encrypt_header, encrypt_slot}
use longboy.Proto.Sender
use longboy.Proto.Sender.{Sender, stamp, store, transmit, poll_datagram}
use longboy.Proto.Receiver
use longboy.Proto.Receiver.{bytes_eq}
use longboy.Proto.Receiver.{handle_datagram}
use longboy.Proto.Link.Late.{handle_datagram-late}
use longboy.Proto.Link.Sends.{idle}
use longboy.Proto.Link.Burst.{InSync}
use longboy.Effects.{into_usize, done}
use longboy.Client.ToServer
use longboy.Client.ToServer.{heartbeat_bytes}
use longboy.Client.ToServer.Laws.{beats, copies}
use longboy.Server.{ServerSessionEvent, connected, Factory, Arena}
use longboy.Server.Events.{known_after, Ends}
use longboy.Server.FromClients
use longboy.Server.FromClients.{ReceiverSession, ClientToServerReceiver}
use longboy.Server.FromClients.Arrivals.{arrive}
use longboy.Server.ToClients
use longboy.Server.ToClients.{SenderSession, ServerToClientSender, poll_sessions}
use longboy.Server.ToClients.Sound.{Sound, Ready, new-Ready}
use longboy.Server.ToClients.Rounds.{polled, owed_all, Polled, poll_sessions_lem, poll-Polled}
use longboy.EndToEnd.{poll-poll}
use longboy.Tests.Arenas.{list_arena, list_iter, in_use}
use longboy.Tests.Clients.{checked, task}
use longboy.Tests.Servers.{logs, sessions_arena}
use longboy.Tests.Links.{first_sends, empty_ring, in_sync}
use longboy.Tests.{
  triple, triple-IsValid, swap, counter, collect, new_sender, behind, sent, first_poll, fresh,
}

-- Session 9 is registered, and not mapped yet.
abbrev registered : ClientToServerReceiver sessions_arena ℕ
registered = record {
  name = "voice";
  mapper_socket = 1;
  socket = 2;
  sessions = some (record { socket_addrs = λ m. none; receiver = fresh }) ∷ [];
  session_id_to_session_map = λ id. if id == 9 then some 0 else none;
  socket_addr_to_session_map = λ addr. none;
  sink_factory = 0;
}

abbrev address : ℕ → ℕ
address socket = 300 + socket

poll-poll_example :
    (server' : ClientToServerReceiver sessions_arena ℕ) × (session' : ReceiverSession
      (List (List ℕ)))
    × (ToServer.poll swap triple (counter 2) checked task 5
        ≡ done
            (record task { next_heartbeat = 2005; sender = behind first_poll })
            (beats task ++ copies task (some (sent first_poll))))
    × (FromClients.poll sessions_arena swap triple collect logs registered 10 []
          (map (arrive address) (beats task))
          (map (arrive address) (copies task (some (sent first_poll))))
        ≡ some server')
    × (sessions_arena.get 0 server'.sessions ≡ some session')
    × InSync swap triple (behind first_poll) session'.receiver
    × (session'.receiver.sink ≡ (1 ∷ 1 ∷ []) ∷ [])
unfolding Sender.new Receiver.new bytes_eq encrypt_slot map_chunks Cipher.new
poll-poll_example =
    poll-poll swap triple-IsValid (counter 2) collect checked sessions_arena logs task registered 0
      (record { socket_addrs = λ m. none; receiver = fresh }) address 5 10 (replicate 3 none)
      (replicate 4 0) empty_ring in_sync idle first_sends (omega arith) (omega arith)
      (tt, (tt, (tt, tt))) (refl, tt) (λ p. refl) (omega arith) (omega arith) (omega arith)
      (omega arith) (omega arith) refl refl (λ m n apart e. cc e)

-- Five seconds on the way.
handle_datagram-late_example :
    (handle_datagram swap triple collect fresh 5005 (sent first_poll)).0 ≡ fresh
unfolding Sender.new Receiver.new
handle_datagram-late_example =
    handle_datagram-late swap triple-IsValid (counter 2) collect new_sender (behind first_poll)
      fresh 5 5000 (sent first_poll) (replicate 3 none) (replicate 4 0) empty_ring refl first_sends
      (omega arith) (omega arith) (omega arith)

abbrev pub senders_arena : Arena (SenderSession ℕ)
senders_arena = list_arena

abbrev pub counters : Factory ℕ ℕ
counters = record { invoke = λ n id. (n, n + 1) }

-- A new sending task, with no session.
new_sending :
    Ends
      (Ready swap triple-IsValid senders_arena {F = ℕ} (λ id. false))
      (ToClients.new senders_arena (λ socket. true) "state" 1 into_usize 0)
new_sending =
    new-Ready swap triple-IsValid senders_arena (λ socket. true) "state" 1 into_usize 0
      (λ socket. refl)

abbrev one_session : List ServerSessionEvent
one_session = connected 9 7 ∷ []

-- Session 9 connects and maps itself to the address 300.
poll-Polled_example :
    Polled swap triple-IsValid
      (counter 2)
      checked
      (λ p. refl)
      senders_arena
      list_iter
      counters
      new_sending.0
      5
      one_session
      ((to_le_bytes 8 9, 300) ∷ [])
      (known_after (λ id. false) one_session)
poll-Polled_example =
    poll-Polled swap triple-IsValid (counter 2) checked (λ p. refl) senders_arena list_iter counters
      (λ id. false) new_sending.0 5 one_session ((to_le_bytes 8 9, 300) ∷ []) new_sending.2
      (refl, tt)

-- The task with that session.
mapped_session :
    Polled swap triple-IsValid
      (counter 2)
      checked
      (λ p. refl)
      senders_arena
      list_iter
      counters
      new_sending.0
      5
      one_session
      ((to_le_bytes 8 9, 300) ∷ [])
      (known_after (λ id. false) one_session)
mapped_session =
    poll-Polled swap triple-IsValid (counter 2) checked (λ p. refl) senders_arena list_iter counters
      (λ id. false) new_sending.0 5 one_session ((to_le_bytes 8 9, 300) ∷ []) new_sending.2
      (refl, tt)

poll_sessions_lem_example :
    (t : ServerToClientSender senders_arena ℕ) × (poll_sessions senders_arena swap triple
        (counter 2)
        checked
        list_iter
        mapped_session.last
        6
      ≡ done t (
          owed_all swap triple
            (counter 2)
            senders_arena
            6
            mapped_session.last.sockets
            mapped_session.last.sessions
            (in_use 0 mapped_session.last.sessions)))
    × Sound swap triple-IsValid senders_arena t
    × (t.session_id_to_session_map ≡ mapped_session.last.session_id_to_session_map)
    × ((i : ℕ)
        → senders_arena.get i t.sessions
          ≡ polled swap triple (counter 2) 6 (senders_arena.get i mapped_session.last.sessions))
poll_sessions_lem_example =
    poll_sessions_lem swap triple-IsValid (counter 2) checked (λ p. refl) senders_arena list_iter
      mapped_session.last 6 mapped_session.ready.0
