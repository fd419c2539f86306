-- ===== src/Server/Builder/Sockets.antt =====
-- crates/longboy/src/server.rs: `sender` and `receiver` of a server's builder, which bind the sockets
-- first.
use Prim.Native.String.{String}
use longboy.Prelude.{
  ℕ, ◌≡◌, ◌≢◌, refl, sym, ◌∙◌, ap, Bool, true, Option, none, some, ◌⊎◌, inl, inr, List, [], ◌∷◌,
  ◌++◌, Option-cases,
}
use longboy.Effects.{Mirroring, ClientToServerSchema, ServerToClientSchema}
use longboy.Builders.{
  BuildError, reused_port, wrong_port, socket_failure, contains, Distinct, bind_all, IsBinding,
}
use longboy.Server.{Arena}
use longboy.Server.ToClients.{SenderSession}
use longboy.Server.FromClients.{ReceiverSession}
use longboy.Server.Builder.{
  ServerTask, sending, receiving, ServerBuilder, sender_with_sockets, receiver_with_socket,
}
use longboy.Server.Builder.Ports.{
  Adds, Match, Mismatch, IsSending, IsReceiving, sender_with_sockets-Adds,
  receiver_with_socket-Adds,
}

refuted : (pairs : List (ℕ × ℕ)) (a c : ℕ) → Match pairs → Mismatch pairs a c → ⊥
refuted [] a c matching h = h
refuted ((schema, socket) ∷ pairs) a c matching (inl (e, e', differ)) =
    differ (e ∙ matching.0 ∙ sym e')
refuted ((schema, socket) ∷ pairs) a c matching (inr h) = refuted pairs a c matching.1 h

module _ {S K : Type 0} (senders : Arena (SenderSession S)) (receivers : Arena (ReceiverSession K))
    {F G : Type 0} (local_port : ℕ → ℕ) (nonblocking : ℕ → Bool) (format : String → String → String)
    {W : Type 0} (bind : W → ℕ → Option (ℕ × W)) where
  -- The system goes with the builder.
  abbrev pub carried :
      W
      → BuildError ⊎ ServerBuilder senders receivers F G
      → BuildError ⊎ (ServerBuilder senders receivers F G × W)
  carried system (inl e) = inl e
  carried system (inr b) = inr (b, system)

  unfoldable pub sender :
      W
      → ServerBuilder senders receivers F G
      → ServerToClientSchema
      → F
      → BuildError ⊎ (ServerBuilder senders receivers F G × W)
  sender system b schema source_factory = elim (bind system schema.mapper_port) [
    | none ↦ inl socket_failure
    | some mapper ↦ elim (bind_all bind mapper.1) [
      | none ↦ inl socket_failure
      | some bound ↦ carried bound.1 (
          sender_with_sockets senders receivers local_port nonblocking format b schema mapper.0
            bound.0 source_factory)
    ]
  ]

  unfoldable pub receiver :
      W
      → ServerBuilder senders receivers F G
      → ClientToServerSchema
      → G
      → BuildError ⊎ (ServerBuilder senders receivers F G × W)
  receiver system b schema sink_factory = elim (bind system schema.mapper_port) [
    | none ↦ inl socket_failure
    | some mapper ↦ elim (bind mapper.1 schema.port) [
      | none ↦ inl socket_failure
      | some bound ↦ carried bound.1 (
          receiver_with_socket senders receivers local_port nonblocking format b schema mapper.0
            bound.0 sink_factory)
    ]
  ]

  -- The result of adding a task on the mapper's port `port` with sockets of the builder's own: the
  -- port is in use, or a socket fails; or there is one task and one channel more.
  abbrev pub Opens :
      ServerBuilder senders receivers F G
      → ℕ
      → (ServerTask senders receivers F G → Type 0)
      → BuildError ⊎ (ServerBuilder senders receivers F G × W)
      → Type 0
  Opens b port IsTask (inl e) =
      (e ≡ socket_failure) ⊎ ((e ≡ reused_port port) × (contains port b.ports ≡ true))
  Opens b port IsTask (inr (b', system)) =
      (b'.ports ≡ port ∷ b.ports)
      × Distinct b'.ports
      × (b'.session_senders ≡ b.session_senders ++ [] ∷ [])
      × (task : ServerTask senders receivers F G) × IsTask task
      × (b'.tasks ≡ b.tasks ++ task ∷ [])

  Adds-Opens :
      {IsTask IsTask' : ServerTask senders receivers F G → Type 0} (system : W)
      (b : ServerBuilder senders receivers F G) (port : ℕ) (pairs : List (ℕ × ℕ))
      (result : BuildError ⊎ ServerBuilder senders receivers F G)
      → Match pairs
      → ((task : ServerTask senders receivers F G) → IsTask task → IsTask' task)
      → Adds b port pairs IsTask result
      → Opens b port IsTask' (carried system result)
  Adds-Opens system b port pairs (inl (reused_port used)) matching onward (same, there) =
      inr (ap reused_port same, there)
  Adds-Opens system b port pairs (inl (wrong_port a c)) matching onward h =
      absurd (refuted pairs a c matching h)
  Adds-Opens system b port pairs (inl socket_failure) matching onward h = inl refl
  Adds-Opens system b port pairs (inr b') matching onward
        (_, _, ports, distinct, channels, task, is_task, tasks) =
      (ports, distinct, channels, task, onward task is_task, tasks)

  -- The task's sockets are on these ports.
  abbrev pub IsSendingOn : ℕ → ServerTask senders receivers F G → Type 0
  IsSendingOn port (sending t) = local_port t.mapper_socket ≡ port
  IsSendingOn port (receiving t) = ⊥

  abbrev pub IsReceivingOn : ℕ → ℕ → ServerTask senders receivers F G → Type 0
  IsReceivingOn port data_port (sending t) = ⊥
  IsReceivingOn port data_port (receiving t) =
      (local_port t.mapper_socket ≡ port) × (local_port t.socket ≡ data_port)

  onto_sending :
      (mapper_socket port : ℕ) (sockets : Mirroring → ℕ)
      → port ≡ local_port mapper_socket
      → (task : ServerTask senders receivers F G) → IsSending mapper_socket sockets task
      → IsSendingOn port task
  onto_sending mapper_socket port sockets e (sending t) h = ap local_port h.0 ∙ sym e
  onto_sending mapper_socket port sockets e (receiving t) h = h

  onto_receiving :
      (mapper_socket socket port data_port : ℕ)
      → port ≡ local_port mapper_socket
      → data_port ≡ local_port socket
      → (task : ServerTask senders receivers F G) → IsReceiving mapper_socket socket task
      → IsReceivingOn port data_port task
  onto_receiving mapper_socket socket port data_port e e' (receiving t) h =
      (ap local_port h.0 ∙ sym e, ap local_port h.1 ∙ sym e')
  onto_receiving mapper_socket socket port data_port e e' (sending t) h = h

  sender-Opens :
      (system : W) (b : ServerBuilder senders receivers F G) (schema : ServerToClientSchema)
      (source_factory : F)
      → IsBinding bind local_port
      → schema.mapper_port ≢ 0
      → Distinct b.ports
      → Opens b schema.mapper_port
          (IsSendingOn schema.mapper_port)
          (sender system b schema source_factory)
  unfolding sender
  sender-Opens system b schema source_factory binding given distinct =
      elim (Option-cases (bind system schema.mapper_port)) [
        | inl failed ↦ rw (sender, failed) (inl refl)
        | inr (mapper, bound) ↦ elim (Option-cases (bind_all bind mapper.1)) [
          | inl failed ↦ rw (sender, bound, failed) (inl refl)
          | inr (sockets, three) ↦
              let same = binding system schema.mapper_port mapper given bound in
              rw (sender, bound, three)
                (Adds-Opens sockets.1 b schema.mapper_port
                  ((schema.mapper_port, local_port mapper.0) ∷ []) _ (same, tt)
                  (onto_sending mapper.0 schema.mapper_port sockets.0 same)
                  (sender_with_sockets-Adds senders receivers local_port nonblocking format b schema
                    mapper.0 sockets.0 source_factory distinct))
        ]
      ]

  -- A server's builder without duplicate ports that binds the sockets of a receiver itself, on a
  -- system where a socket that is bound to a port has that port, the schema's ports not being 0:
  -- it never complains of ports that differ; it refuses for a socket, or for the mapper's port,
  -- which is in use; or it adds that port, still without duplicates, and one receiving task on
  -- sockets with the schema's ports and one empty channel behind the others.
  pub receiver-Opens :
      (system : W) (b : ServerBuilder senders receivers F G) (schema : ClientToServerSchema)
      (sink_factory : G)
      → IsBinding bind local_port
      → schema.mapper_port ≢ 0
      → schema.port ≢ 0
      → Distinct b.ports
      → Opens b schema.mapper_port
          (IsReceivingOn schema.mapper_port schema.port)
          (receiver system b schema sink_factory)
  unfolding receiver
  receiver-Opens system b schema sink_factory binding given given' distinct =
      elim (Option-cases (bind system schema.mapper_port)) [
        | inl failed ↦ rw (receiver, failed) (inl refl)
        | inr (mapper, bound) ↦ elim (Option-cases (bind mapper.1 schema.port)) [
          | inl failed ↦ rw (receiver, bound, failed) (inl refl)
          | inr (socket, second) ↦
              let same = binding system schema.mapper_port mapper given bound in
              let same' = binding mapper.1 schema.port socket given' second in
              rw (receiver, bound, second)
                (Adds-Opens socket.1 b schema.mapper_port
                  ((schema.mapper_port, local_port mapper.0)
                    ∷ (schema.port, local_port socket.0)
                    ∷ [])
                  _ (same, (same', tt))
                  (onto_receiving mapper.0 socket.0 schema.mapper_port schema.port same same')
                  (receiver_with_socket-Adds senders receivers local_port nonblocking format b
                    schema mapper.0 socket.0 sink_factory distinct))
        ]
      ]
