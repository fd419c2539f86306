-- ===== src/Client/Builder.antt =====
-- crates/longboy/src/client.rs
pub mod Ports
use Prim.Native.String.{String}
use longboy.Prelude.{
  ℕ, ◌+◌, ◌*◌, ◌≡◌, ◌≢◌, refl, sym, ◌∙◌, ap, Bool, true, false, Option, none, some, ◌⊎◌, inl, inr,
  List, [], ◌∷◌, ◌++◌, foldl, ◌==◌, if◌then◌else◌,
}
use longboy.Proto.Constants.{Constants}
use longboy.Effects.{Mirroring, SocketAddr, ClientToServerSchema, ServerToClientSchema}
use longboy.Builders.{BuildError, reused_port, socket_failure, contains, socket_addr, bind_all}
use longboy.Client.ToServer
use longboy.Client.ToServer.{ClientToServerSender}
use longboy.Client.FromServer
use longboy.Client.FromServer.{ServerToClientReceiver}

-- What the builder reads of a `ClientSession`.
pub record ClientSession : Type 0 where
  pub ip_addr : ℕ
  pub session_id : ℕ
  pub cipher_key : ℕ

-- `Box<dyn RuntimeTask>`, of the two tasks that a client has.
pub data ClientTask (S K : Type 0) : Type 0 where
  sending : ClientToServerSender S → ClientTask S K
  receiving : ServerToClientReceiver K → ClientTask S K

-- The runtime is an argument of `build`.
pub record ClientBuilder (S K : Type 0) : Type 0 where
  pub session : ClientSession
  pub ports : List ℕ
  pub tasks : List (ClientTask S K)

module _ {S K : Type 0} where
  unfoldable pub builder : ClientSession → ClientBuilder S K
  builder session = record { session = session; ports = []; tasks = [] }

  -- `format` puts the kind of a task before the name of its schema.
  module _ (k : Constants) (nonblocking : ℕ → Bool) (format : String → String → String) where
    unfoldable pub sender_with_sockets :
        ClientBuilder S K
        → ClientToServerSchema
        → (Mirroring → ℕ)
        → S
        → BuildError ⊎ ClientBuilder S K
    unfolding ToServer.new contains
    sender_with_sockets b schema sockets source =
        let built : BuildError ⊎ ClientBuilder S K =
          elim (ToServer.new k nonblocking (format "ClientToServerSender: " schema.name)
            (socket_addr b.session.ip_addr schema.mapper_port) schema.heartbeat_period
            (socket_addr b.session.ip_addr schema.port) b.session.session_id b.session.cipher_key
            sockets source) [
              | none ↦ inl socket_failure
              | some task ↦ inr (record b {
                ports = schema.port ∷ schema.mapper_port ∷ b.ports;
                tasks = b.tasks ++ sending task ∷ [];
              })
            ] in
        if contains schema.mapper_port b.ports
        then inl (reused_port schema.mapper_port)
        else (if contains schema.port (schema.mapper_port ∷ b.ports)
            then inl (reused_port schema.port)
            else built)

    unfoldable pub receiver_with_socket :
        ClientBuilder S K → ServerToClientSchema → ℕ → K → BuildError ⊎ ClientBuilder S K
    unfolding FromServer.new contains
    receiver_with_socket b schema socket sink =
        let built : BuildError ⊎ ClientBuilder S K =
          elim (FromServer.new k nonblocking (format "ServerToClientReceiver: " schema.name)
            (socket_addr b.session.ip_addr schema.mapper_port) schema.heartbeat_period
            b.session.session_id b.session.cipher_key socket sink) [
              | none ↦ inl socket_failure
              | some task ↦ inr (record b {
                ports = schema.mapper_port ∷ b.ports;
                tasks = b.tasks ++ receiving task ∷ [];
              })
            ] in
        if contains schema.mapper_port b.ports then inl (reused_port schema.mapper_port) else built

    -- `sender` and `receiver` bind the sockets first; the system goes with the builder.
    module _ {W : Type 0} (bind : W → ℕ → Option (ℕ × W)) where
      unfoldable pub sender :
          W → ClientBuilder S K → ClientToServerSchema → S → BuildError ⊎ (ClientBuilder S K × W)
      sender system b schema source = elim (bind_all bind system) [
        | none ↦ inl socket_failure
        | some bound ↦ elim (sender_with_sockets b schema bound.0 source) [
          | inl e ↦ inl e
          | inr b' ↦ inr (b', bound.1)
        ]
      ]

      unfoldable pub receiver :
          W → ClientBuilder S K → ServerToClientSchema → K → BuildError ⊎ (ClientBuilder S K × W)
      receiver system b schema sink = elim (bind system 0) [
        | none ↦ inl socket_failure
        | some bound ↦ elim (receiver_with_socket b schema bound.0 sink) [
          | inl e ↦ inl e
          | inr b' ↦ inr (b', bound.1)
        ]
      ]

  -- `runtime.spawn` on each task.
  unfoldable pub build : {R : Type 0} → (R → ClientTask S K → R) → R → ClientBuilder S K → R
  build spawn runtime b = foldl spawn runtime b.tasks
