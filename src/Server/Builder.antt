-- ===== src/Server/Builder.antt =====
-- crates/longboy/src/server.rs: building a server. `local_port` is the port of a socket, and
-- `nonblocking` says on which sockets `set_nonblocking(true)` succeeds.
pub mod Ports
pub mod Channels
pub mod Sockets
use Prim.Native.String.{String}
use longboy.Prelude.{
  ℕ, ◌≡◌, Bool, true, false, Option, none, some, ◌⊎◌, inl, inr, List, [], ◌∷◌, ◌++◌, foldl, ◌==◌,
  if◌then◌else◌,
}
use longboy.Effects.{Mirroring, ClientToServerSchema, ServerToClientSchema}
use longboy.Builders.{BuildError, reused_port, wrong_port, socket_failure, contains}
use longboy.Server.{ServerSessionEvent, Arena}
use longboy.Server.ToClients
use longboy.Server.ToClients.{SenderSession, ServerToClientSender}
use longboy.Server.FromClients
use longboy.Server.FromClients.{ReceiverSession, ClientToServerReceiver}
use longboy.Server.Registry.{Server}

-- `Box<dyn RuntimeTask>`, of the two tasks that a server has.
pub data ServerTask {S K : Type 0} (senders : Arena (SenderSession S))
    (receivers : Arena (ReceiverSession K)) (F G : Type 0) : Type 0 where
  sending : ServerToClientSender senders F → ServerTask senders receivers F G
  receiving : ClientToServerReceiver receivers G → ServerTask senders receivers F G

-- The runtime is an argument of `build`. The channel at a place is read by the task there; it is
-- what has been sent on it.
pub record ServerBuilder {S K : Type 0} (senders : Arena (SenderSession S))
    (receivers : Arena (ReceiverSession K)) (F G : Type 0) : Type 0 where
  pub session_capacity : ℕ
  pub ports : List ℕ
  pub session_senders : List (List ServerSessionEvent)
  pub tasks : List (ServerTask senders receivers F G)

module _ {S K : Type 0} (senders : Arena (SenderSession S)) (receivers : Arena (ReceiverSession K))
    {F G : Type 0} where
  unfoldable pub builder : ℕ → ServerBuilder senders receivers F G
  builder session_capacity = record {
    session_capacity = session_capacity;
    ports = [];
    session_senders = [];
    tasks = [];
  }

  -- A task with a new channel.
  abbrev pub push :
      ServerBuilder senders receivers F G
      → ℕ
      → ServerTask senders receivers F G
      → ServerBuilder senders receivers F G
  push b port task = record b {
    ports = port ∷ b.ports;
    session_senders = b.session_senders ++ [] ∷ [];
    tasks = b.tasks ++ task ∷ [];
  }

  -- `format` puts the kind of a task before the name of its schema.
  module _ (local_port : ℕ → ℕ) (nonblocking : ℕ → Bool) (format : String → String → String) where
    unfoldable pub sender_with_sockets :
        ServerBuilder senders receivers F G
        → ServerToClientSchema
        → ℕ
        → (Mirroring → ℕ)
        → F
        → BuildError ⊎ ServerBuilder senders receivers F G
    unfolding ToClients.new contains
    sender_with_sockets b schema mapper_socket sockets source_factory =
        let built : BuildError ⊎ ServerBuilder senders receivers F G =
          elim (ToClients.new senders nonblocking (format "ServerToClientSender: " schema.name)
            mapper_socket sockets source_factory) [
              | none ↦ inl socket_failure
              | some task ↦ inr (push b schema.mapper_port (sending task))
            ] in
        if schema.mapper_port == local_port mapper_socket
        then (if contains schema.mapper_port b.ports
            then inl (reused_port schema.mapper_port)
            else built)
        else inl (wrong_port schema.mapper_port (local_port mapper_socket))

    unfoldable pub receiver_with_socket :
        ServerBuilder senders receivers F G
        → ClientToServerSchema
        → ℕ
        → ℕ
        → G
        → BuildError ⊎ ServerBuilder senders receivers F G
    unfolding FromClients.new contains
    receiver_with_socket b schema mapper_socket socket sink_factory =
        let task : BuildError ⊎ ServerBuilder senders receivers F G =
          elim (FromClients.new receivers nonblocking
            (format "ClientToServerReceiver: " schema.name) mapper_socket socket sink_factory) [
              | none ↦ inl socket_failure
              | some task ↦ inr (push b schema.mapper_port (receiving task))
            ] in
        let built = if nonblocking socket then task else inl socket_failure in
        if schema.mapper_port == local_port mapper_socket
        then (if schema.port == local_port socket
            then (if contains schema.mapper_port b.ports
                then inl (reused_port schema.mapper_port)
                else built)
            else inl (wrong_port schema.port (local_port socket)))
        else inl (wrong_port schema.mapper_port (local_port mapper_socket))

  -- `runtime.spawn` on each task. `with_capacity` is the capacity of a hash map that is made with
  -- room for a number of entries.
  unfoldable pub build :
      {R : Type 0}
      → (with_capacity : ℕ → ℕ) → (R → ServerTask senders receivers F G → R)
      → R
      → ServerBuilder senders receivers F G
      → Server × R
  build with_capacity spawn runtime b = (
    record {
      sessions = [];
      capacity = with_capacity b.session_capacity;
      session_senders = b.session_senders;
    },
    foldl spawn runtime b.tasks,
  )
