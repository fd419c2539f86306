-- ===== src/Server/Builder/Ports.antt =====
-- What a server's builder makes of each call, errors included.
use Prim.Native.String.{String}
use longboy.Prelude.{
  ℕ, ◌&&◌, ==_of, ==_ne, ℕ_discrete, ◌≡◌, ◌≢◌, refl, Bool, true, ◌⊎◌, inl, inr, List, [], ◌∷◌, ◌++◌,
  Bool-cases,
}
use longboy.Effects.{
  Mirroring, audio_video, background, voice, ClientToServerSchema, ServerToClientSchema,
}
use longboy.Builders.{BuildError, reused_port, wrong_port, socket_failure, contains, Distinct}
use longboy.Server.{Arena}
use longboy.Server.ToClients
use longboy.Server.ToClients.{SenderSession}
use longboy.Server.FromClients
use longboy.Server.FromClients.{ReceiverSession}
use longboy.Server.Builder.{
  ServerTask, sending, receiving, ServerBuilder, sender_with_sockets, receiver_with_socket,
}

-- One of the pairs, of a schema's port and its socket's, differs and is `(a, b)`.
abbrev pub Mismatch : List (ℕ × ℕ) → ℕ → ℕ → Type 0
Mismatch [] a b = ⊥
Mismatch ((schema, socket) ∷ pairs) a b =
    ((a ≡ schema) × (b ≡ socket) × (a ≢ b)) ⊎ Mismatch pairs a b

-- Each schema's port is its socket's.
abbrev pub Match : List (ℕ × ℕ) → Type 0
Match [] = Unit {0}
Match ((schema, socket) ∷ pairs) = (schema ≡ socket) × Match pairs

module _ {S K : Type 0} {senders : Arena (SenderSession S)} {receivers : Arena (ReceiverSession K)}
    {F G : Type 0} where
  -- The result of adding a task on the mapper's port `port`, where `pairs` are ports of the schema
  -- with those of its sockets: an error names a mismatch, or `port` if it is in use, or reports a
  -- socket; otherwise the ports match, `port` is added, still without duplicates, and one task and
  -- an empty channel come behind the others.
  abbrev pub Adds :
      ServerBuilder senders receivers F G
      → ℕ
      → List (ℕ × ℕ)
      → (ServerTask senders receivers F G → Type 0)
      → BuildError ⊎ ServerBuilder senders receivers F G
      → Type 0
  Adds b port pairs IsTask (inl (reused_port used)) = (used ≡ port) × (contains port b.ports ≡ true)
  Adds b port pairs IsTask (inl (wrong_port schema socket)) = Mismatch pairs schema socket
  Adds b port pairs IsTask (inl e) = e ≡ socket_failure
  Adds b port pairs IsTask (inr b') =
      (b'.session_capacity ≡ b.session_capacity)
      × Match pairs
      × (b'.ports ≡ port ∷ b.ports)
      × Distinct b'.ports
      × (b'.session_senders ≡ b.session_senders ++ [] ∷ [])
      × (task : ServerTask senders receivers F G) × IsTask task
      × (b'.tasks ≡ b.tasks ++ task ∷ [])

  -- The task holds these sockets, and no session yet.
  abbrev pub IsSending : ℕ → (Mirroring → ℕ) → ServerTask senders receivers F G → Type 0
  IsSending mapper_socket sockets (sending t) =
      (t.mapper_socket ≡ mapper_socket) × (t.sockets ≡ sockets) × (t.sessions ≡ senders.empty)
  IsSending mapper_socket sockets (receiving t) = ⊥

  abbrev pub IsReceiving : ℕ → ℕ → ServerTask senders receivers F G → Type 0
  IsReceiving mapper_socket socket (sending t) = ⊥
  IsReceiving mapper_socket socket (receiving t) =
      (t.mapper_socket ≡ mapper_socket) × (t.socket ≡ socket) × (t.sessions ≡ receivers.empty)

module _ {S K : Type 0} (senders : Arena (SenderSession S)) (receivers : Arena (ReceiverSession K))
    {F G : Type 0} (local_port : ℕ → ℕ) (nonblocking : ℕ → Bool)
    (format : String → String → String) where
  -- A server's builder without duplicate ports, asked for a sender: either the port of the schema
  -- is that of the mapper's socket, and it is added to the ports, still without duplicates, and
  -- one sending task on the given sockets and one empty channel behind the others; or it refuses:
  -- for the two ports, which differ, for the schema's port, which is in use, or for a socket.
  pub sender_with_sockets-Adds :
      (b : ServerBuilder senders receivers F G) (schema : ServerToClientSchema) (mapper_socket : ℕ)
      (sockets : Mirroring → ℕ) (source_factory : F)
      → Distinct b.ports
      → Adds b schema.mapper_port
          ((schema.mapper_port, local_port mapper_socket) ∷ [])
          (IsSending mapper_socket sockets)
          (sender_with_sockets senders receivers local_port nonblocking format b schema
            mapper_socket sockets source_factory)
  unfolding sender_with_sockets ToClients.new
  sender_with_sockets-Adds b schema mapper_socket sockets source_factory distinct =
      elim (ℕ_discrete schema.mapper_port (local_port mapper_socket)) [
        | no other ↦ rw (sender_with_sockets, ==_ne _ _ other) (inl (refl, refl, other))
        | yes same ↦ elim (Bool-cases (contains schema.mapper_port b.ports)) [
          | inl used ↦ rw (sender_with_sockets, ==_of _ _ same, used) (refl, used)
          | inr free ↦ elim (Bool-cases ready) [
            | inl opened ↦
                rw (sender_with_sockets, ToClients.new, ==_of _ _ same, free, opened)
                  (refl, (same, tt), refl, (free, distinct), refl, _, (refl, refl, refl), refl)
            | inr closed ↦
                rw (sender_with_sockets, ToClients.new, ==_of _ _ same, free, closed) refl
          ]
        ]
      ]
    where
      ready : Bool
      ready =
          nonblocking mapper_socket
          && (nonblocking (sockets audio_video)
              && (nonblocking (sockets background) && nonblocking (sockets voice)))

  -- A server's builder without duplicate ports, asked for a receiver: either both ports of the
  -- schema are those of their sockets, and the mapper's port is added to the ports, still without
  -- duplicates, and one receiving task on the given sockets and one empty channel behind the
  -- others; or it refuses: for two ports that differ, for the mapper's port, which is in use, or
  -- for a socket. The data port is neither looked up nor added.
  pub receiver_with_socket-Adds :
      (b : ServerBuilder senders receivers F G) (schema : ClientToServerSchema)
      (mapper_socket socket : ℕ) (sink_factory : G)
      → Distinct b.ports
      → Adds b schema.mapper_port
          ((schema.mapper_port, local_port mapper_socket) ∷ (schema.port, local_port socket) ∷ [])
          (IsReceiving mapper_socket socket)
          (receiver_with_socket senders receivers local_port nonblocking format b schema
            mapper_socket socket sink_factory)
  unfolding receiver_with_socket FromClients.new
  receiver_with_socket-Adds b schema mapper_socket socket sink_factory distinct =
      elim (ℕ_discrete schema.mapper_port (local_port mapper_socket)) [
        | no other ↦ rw (receiver_with_socket, ==_ne _ _ other) (inl (refl, refl, other))
        | yes same ↦ elim (ℕ_discrete schema.port (local_port socket)) [
          | no other ↦
              rw (receiver_with_socket, ==_of _ _ same, ==_ne _ _ other)
                (inr (inl (refl, refl, other)))
          | yes same' ↦ elim (Bool-cases (contains schema.mapper_port b.ports)) [
            | inl used ↦
                rw (receiver_with_socket, ==_of _ _ same, ==_of _ _ same', used) (refl, used)
            | inr free ↦ elim (Bool-cases (nonblocking socket)) [
              | inr closed ↦
                  rw (receiver_with_socket, ==_of _ _ same, ==_of _ _ same', free, closed) refl
              | inl opened ↦ elim (Bool-cases (nonblocking mapper_socket)) [
                | inl ready ↦
                    rw
                      (
                        receiver_with_socket,
                        FromClients.new,
                        ==_of _ _ same,
                        ==_of _ _ same',
                        free,
                        opened,
                        ready,
                      )
                      (
                        refl,
                        (same, (same', tt)),
                        refl,
                        (free, distinct),
                        refl,
                        _,
                        (refl, refl, refl),
                        refl,
                      )
                | inr closed ↦
                    rw
                      (
                        receiver_with_socket,
                        FromClients.new,
                        ==_of _ _ same,
                        ==_of _ _ same',
                        free,
                        opened,
                        closed,
                      )
                      refl
              ]
            ]
          ]
        ]
      ]
