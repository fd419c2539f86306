-- ===== src/Tests/Servers.antt =====
-- The receiving task of a server, on an arena that is a list.
use longboy.Prelude.{arith, some, ℕ, ◌+◌, ◌≡◌, refl, true, false, none, List, [], ◌∷◌}
use longboy.Effects.{voice}
use longboy.Client.ToServer.{heartbeat_bytes}
use longboy.Server.{ServerSessionEvent, connected, disconnected, Factory, Arena}
use longboy.Server.FromClients.{ReceiverSession, new}
use longboy.Server.Events.{Ends}
use longboy.Server.FromClients.Total.{Ready, new-Ready}
use longboy.Server.Batches.{known_behind}
use longboy.Server.FromClients.Life.{Reads, batches, life, life-Ready}
use longboy.Server.FromClients.{poll_server_session_events}
use longboy.Server.Registry.{Server, contains_key, remove_key, register, unregister}
use longboy.Server.Registry.Streams.{Calls, stop, registered, unregistered}
use longboy.Server.Registry.Twice.{register_twice}
use longboy.Tests.Arenas.{list_arena}
use longboy.Tests.{triple, triple-IsValid, swap, collect, sent, second_poll}

-- Each session has an empty log.
abbrev pub logs : Factory ℕ (List (List ℕ))
logs = record { invoke = λ n id. ([], n + 1) }

abbrev pub sessions_arena : Arena (ReceiverSession (List (List ℕ)))
sessions_arena = list_arena

pub new_task :
    Ends
      (Ready {k = triple} triple-IsValid sessions_arena logs (λ id. false))
      (new sessions_arena (λ socket. true) "voice" 1 2 0)
new_task = new-Ready triple-IsValid sessions_arena logs (λ socket. true) "voice" 1 2 0 refl refl

-- Session 9 connects, maps itself to the address 300, and sends a datagram, and another one is sent
-- from an address that nobody has mapped; in the next poll it disconnects, and one more comes in.
abbrev pub two_polls : List Reads
two_polls =
    record {
      timestamp = 10;
      events = connected 9 7 ∷ [];
      mappings = (heartbeat_bytes 9 voice, 300) ∷ (1 ∷ 2 ∷ [], 300) ∷ [];
      datagrams = (sent second_poll, 300) ∷ (sent second_poll, 400) ∷ [];
    }
    ∷ record {
      timestamp = 11;
      events = disconnected 9 ∷ [];
      mappings = [];
      datagrams = (sent second_poll, 300) ∷ [];
    }
    ∷ []

life-Ready_example :
    Ends
      (Ready {k = triple} triple-IsValid sessions_arena logs
        (known_behind (λ id. false) (batches two_polls)))
      (life swap triple-IsValid collect sessions_arena logs
        (λ socket. true)
        "voice"
        1
        2
        0
        two_polls)
life-Ready_example =
    life-Ready swap triple-IsValid collect sessions_arena logs (λ socket. true) "voice" 1 2 0
      two_polls refl refl ((refl, tt), ((refl, tt), tt))

abbrev pub server : Server
server = record { sessions = []; capacity = 4; session_senders = [] ∷ [] ∷ [] }

abbrev pub server_with : List (ℕ × ℕ) → List ServerSessionEvent → Server
server_with sessions events = record {
  sessions = sessions;
  capacity = 4;
  session_senders = events ∷ events ∷ [];
}

pub in_and_out :
    Calls server
      (connected 9 7 ∷ disconnected 9 ∷ [])
      (server_with [] (connected 9 7 ∷ disconnected 9 ∷ []))
unfolding register unregister contains_key remove_key
in_and_out =
    registered {t = server_with ((9, 7) ∷ []) (connected 9 7 ∷ [])} 9 7 refl refl
      (unregistered 9 refl stop)

register_twice_example :
    (t u : Server) × (register server 9 7 ≡ some t)
    × (register t 9 8 ≡ some u)
    × (u.session_senders
        ≡ (connected 9 7 ∷ connected 9 8 ∷ []) ∷ (connected 9 7 ∷ connected 9 8 ∷ []) ∷ [])
    × (poll_server_session_events sessions_arena triple logs new_task.0
          (connected 9 7 ∷ connected 9 8 ∷ [])
        ≡ none)
register_twice_example =
    register_twice triple sessions_arena logs server 9 7 8 new_task.0 (omega arith)
