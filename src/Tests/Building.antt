-- ===== src/Tests/Building.antt =====
-- Builders of servers.
use Prim.Native.String.{String}
use mathlib.Core.Option.{some-injective}
use longboy.Prelude.{
  ◌≢◌, ℕ, ==_ne, ◌+◌, ◌==◌, if◌then◌else◌, ap, ◌≡◌, refl, arith, true, false, Option, none, some,
  List, [], ◌∷◌,
}
use longboy.Effects.{into_usize}
use longboy.Builders.{Distinct, contains, IsBinding}
use longboy.Server.{ServerSessionEvent, connected, disconnected}
use longboy.Server.Events.{Once}
use longboy.Server.Registry.{Server, contains_key, remove_key, register, unregister}
use longboy.Server.Registry.Streams.{Calls, stop, registered, unregistered}
use longboy.Server.ToClients
use longboy.Server.Builder.{ServerTask, sending, ServerBuilder, builder, sender_with_sockets, build}
use longboy.Server.Builder.Sockets.{receiver, Opens, IsReceivingOn, receiver-Opens}
use longboy.Server.Builder.Channels.{Built, empty, sender, build-Calls}
use longboy.Schemas.{new_client_to_server_schema, new_server_to_client_schema}
use longboy.Tests.Servers.{sessions_arena}
use longboy.Tests.Whole.{senders_arena}
use longboy.Schemas.SetUp.{set_up, set_up_lem}

-- Sockets 80 and 81 have the ports that the schemas want.
abbrev local_port : ℕ → ℕ
local_port socket = 8000 + socket

abbrev pub named : String → String → String
named kind name = kind

abbrev new_builder : ServerBuilder senders_arena sessions_arena ℕ ℕ
new_builder = record { session_capacity = 4; ports = []; session_senders = []; tasks = [] }

-- A builder with one sending task.
abbrev one_task : ServerBuilder senders_arena sessions_arena ℕ ℕ
one_task = record {
  session_capacity = 4;
  ports = 8080 ∷ [];
  session_senders = [] ∷ [];
  tasks =
      sending (record {
        name = "ServerToClientSender: ";
        mapper_socket = 80;
        sockets = into_usize;
        sessions = [];
        session_id_to_session_map = λ id. none;
        source_factory = 0;
      })
      ∷ [];
}

single_builder : Built senders_arena sessions_arena local_port (λ socket. true) named one_task
unfolding builder sender_with_sockets ToClients.new contains new_server_to_client_schema
single_builder = sender (empty 4) new_server_to_client_schema 80 into_usize 0 refl

-- A runtime that counts its tasks.
abbrev count_task : ℕ → ServerTask senders_arena sessions_arena ℕ ℕ → ℕ
count_task n task = n + 1

abbrev pub server_with : List (ℕ × ℕ) → List ServerSessionEvent → Server
server_with sessions events = record {
  sessions = sessions;
  capacity = 4;
  session_senders = events ∷ [];
}

in_and_out :
    Calls
      (build senders_arena sessions_arena (λ n. n) count_task 0 one_task).0
      (connected 9 7 ∷ disconnected 9 ∷ [])
      (server_with [] (connected 9 7 ∷ disconnected 9 ∷ []))
unfolding build register unregister contains_key remove_key
in_and_out =
    registered {t = server_with ((9, 7) ∷ []) (connected 9 7 ∷ [])} 9 7 refl refl
      (unregistered 9 refl stop)

build-Calls_example :
    Distinct one_task.ports
    × ((build senders_arena sessions_arena (λ n. n) count_task 0 one_task).1 ≡ 1)
    × Once (λ id. false) (connected 9 7 ∷ disconnected 9 ∷ [])
    × ((server_with [] (connected 9 7 ∷ disconnected 9 ∷ [])).session_senders
        ≡ (connected 9 7 ∷ disconnected 9 ∷ []) ∷ [])
build-Calls_example =
    build-Calls senders_arena sessions_arena local_port (λ socket. true) named (λ n. n) count_task 0
      single_builder in_and_out

-- A system whose sockets are numbered by their ports, with free ports from 60000 on.
abbrev bind : ℕ → ℕ → Option (ℕ × ℕ)
bind system port = if port == 0 then some (60000 + system, system + 1) else some (port, system)

bind-IsBinding : IsBinding bind (λ socket. socket)
bind-IsBinding system port bound given e =
    ap (λ (b : ℕ × ℕ). b.0) (some-injective _ _ (let e' = rw (==_ne port 0 given) at e in e'))

receiver-Opens_example :
    Opens senders_arena sessions_arena
      (λ socket. socket)
      (λ socket. true)
      named
      bind
      new_builder
      8081
      (IsReceivingOn senders_arena sessions_arena
        (λ socket. socket)
        (λ socket. true)
        named
        bind
        8081
        8082)
      (receiver senders_arena sessions_arena
        (λ socket. socket)
        (λ socket. true)
        named
        bind
        0
        new_builder
        new_client_to_server_schema
        0)
unfolding new_client_to_server_schema
receiver-Opens_example =
    receiver-Opens senders_arena sessions_arena (λ socket. socket) (λ socket. true) named bind 0
      new_builder new_client_to_server_schema 0 bind-IsBinding (λ e. absurd (omega arith))
      (λ e. absurd (omega arith)) tt

-- The same system, which never fails.
abbrev pub bound : ℕ → ℕ → ℕ × ℕ
bound system port = if port == 0 then (60000 + system, system + 1) else (port, system)

bound-binds : (system port : ℕ) → port ≢ 0 → port ≡ (bound system port).0
bound-binds system port given = rw (==_ne port 0 given)

set_up_lem_example :
    (last : ℕ) × (set_up senders_arena sessions_arena
        (λ socket. socket)
        (λ socket. true)
        named
        (λ w port. some (bound w port))
        (λ n. n)
        count_task
        0
        0
        4
        0
        0
      ≡ some (record { sessions = []; capacity = 4; session_senders = [] ∷ [] ∷ [] }, last))
set_up_lem_example =
    set_up_lem senders_arena sessions_arena (λ socket. socket) (λ socket. true) named bound (λ n. n)
      count_task 0 0 4 0 0 bound-binds (λ socket. refl)
