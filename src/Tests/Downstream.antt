-- ===== src/Tests/Downstream.antt =====
-- The server's sending task with one session, and its client's receiving task.
use longboy.Prelude.{ℕ, zero, suc, refl, arith, none, some, List, [], ◌∷◌, replicate, ◌==◌}
use longboy.Proto.Cipher
use longboy.Proto.Cipher.{map_chunks, encrypt_slot}
use longboy.Proto.Sender
use longboy.Proto.Receiver
use longboy.Proto.Receiver.{bytes_eq}
use longboy.Proto.Link.Sends.{idle}
use longboy.Effects.{into_usize}
use longboy.Client.FromServer.{ServerToClientReceiver}
use longboy.Server.Maps.{insert}
use longboy.Server.Sessions.{Indexed, Indexed-insert, Each-insert}
use longboy.Server.ToClients.{SenderSession, ServerToClientSender}
use longboy.Server.ToClients.Sound.{IsCarrying, Ready}
use longboy.EndToEnd.Network.{Alone}
use longboy.EndToEnd.Downstream.{Exchange, poll-poll-poll}
use longboy.Tests.Arenas.{list_iter}
use longboy.Tests.Clients.{checked}
use longboy.Tests.Whole.{senders_arena, counters}
use longboy.Tests.Links.{first_sends, empty_ring, in_sync}
use longboy.Tests.{
  triple, triple-IsValid, swap, counter, collect, new_sender, behind, first_poll, fresh,
}

abbrev listener : ServerToClientReceiver (List (List ℕ))
listener = record {
  name = "state";
  mapper_socket_addr = 100;
  heartbeat_period = 2000;
  socket = 4;
  session_id = 9;
  next_heartbeat = 0;
  receiver = fresh;
}

abbrev unmapped : SenderSession ℕ
unmapped = record { socket_addr = none; sender = new_sender }

-- Session 9, which is not mapped yet.
abbrev serving : ServerToClientSender senders_arena ℕ
serving = record {
  name = "state";
  mapper_socket = 1;
  sockets = into_usize;
  sessions = some unmapped ∷ [];
  session_id_to_session_map = insert 9 0 (λ id. none);
  source_factory = 1;
}

nothing_there : Indexed senders_arena [] (λ id. none)
nothing_there = record { found = λ id i e. absurd (cc e); distinct = λ a b i e e'. absurd (cc e) }

serving-Ready : Ready swap triple-IsValid senders_arena (λ id. id == 9) serving
serving-Ready = (
  record {
    indexed = Indexed-insert senders_arena unmapped [] (λ id. none) 9 nothing_there refl;
    carrying =
        Each-insert senders_arena unmapped [] (IsCarrying swap triple-IsValid senders_arena)
          (λ i s e. absurd (cc e)) (replicate 3 none, replicate 4 0, empty_ring);
  },
  λ id. ground arith,
)

nobody_else : Alone swap triple (counter 2) senders_arena 300 0 serving.sessions
nobody_else zero other apart e at = apart refl
nobody_else (suc i) other apart e at = cc e

poll-poll-poll_example :
    Exchange swap triple-IsValid
      (counter 2)
      collect
      checked
      senders_arena
      list_iter
      counters
      listener
      serving
      0
      300
      3
      5
      10
      (behind first_poll)
      (some (1 ∷ 1 ∷ []) ∷ [])
unfolding Sender.new Receiver.new bytes_eq encrypt_slot map_chunks Cipher.new
poll-poll-poll_example =
    poll-poll-poll swap triple-IsValid (counter 2) collect checked senders_arena list_iter counters
      listener serving (λ id. id == 9) 0 unmapped 300 3 5 10 (replicate 3 none) (replicate 4 0)
      empty_ring in_sync idle first_sends (omega arith) (omega arith) (tt, (tt, (tt, tt)))
      (refl, tt) (λ p. refl) (omega arith) (omega arith) (omega arith) (omega arith) (omega arith)
      (omega arith) serving-Ready refl refl nobody_else
