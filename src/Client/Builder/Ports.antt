-- ===== src/Client/Builder/Ports.antt =====
-- What a client's builder makes of each call, errors included.
use Prim.Native.String.{String}
use longboy.Prelude.{
  ℕ, ◌&&◌, ◌==◌, ==_self, ◌≡◌, refl, sym, ◌∙◌, Bool, true, ◌⊎◌, inl, inr, List, [], ◌∷◌, ◌++◌,
  Bool-cases,
}
use longboy.Proto.Constants.{Constants}
use longboy.Effects.{
  Mirroring, audio_video, background, voice, ClientToServerSchema, ServerToClientSchema,
}
use longboy.Builders.{BuildError, reused_port, socket_failure, contains, Distinct}
use longboy.Client.Builder.{
  ClientTask, sending, receiving, ClientBuilder, sender_with_sockets, receiver_with_socket,
}
use longboy.Client.ToServer
use longboy.Client.FromServer

module _ {S K : Type 0} where
  -- The result of adding a task that uses the ports `new`, the last of them first: an error names a
  -- port of them, and some port would be used twice, or it reports a socket; otherwise the ports are
  -- added, still without duplicates, and one task behind the others.
  abbrev pub Adds :
      ClientBuilder S K
      → List ℕ
      → (ClientTask S K → Type 0)
      → BuildError ⊎ ClientBuilder S K
      → Type 0
  Adds b new IsTask (inl (reused_port port)) =
      (contains port new ≡ true) × (Distinct (new ++ b.ports) → ⊥)
  Adds b new IsTask (inl e) = e ≡ socket_failure
  Adds b new IsTask (inr b') =
      (b'.session ≡ b.session)
      × (b'.ports ≡ new ++ b.ports)
      × Distinct b'.ports
      × (task : ClientTask S K) × IsTask task
      × (b'.tasks ≡ b.tasks ++ task ∷ [])

  abbrev pub IsSending : ClientToServerSchema → ClientTask S K → Type 0
  IsSending schema (sending t) = t.heartbeat_period ≡ schema.heartbeat_period
  IsSending schema (receiving t) = ⊥

  abbrev pub IsReceiving : ServerToClientSchema → ClientTask S K → Type 0
  IsReceiving schema (sending t) = ⊥
  IsReceiving schema (receiving t) = t.heartbeat_period ≡ schema.heartbeat_period

contains_front : (a : ℕ) (ports : List ℕ) → contains a (a ∷ ports) ≡ true
unfolding contains
contains_front a ports = rw (==_self a)

contains_second : (a b : ℕ) → contains a (b ∷ a ∷ []) ≡ true
unfolding contains
contains_second a b = elim (Bool-cases (a == b)) [
  | inl same ↦ rw same
  | inr other ↦ rw (other, ==_self a)
]

module _ (k : Constants) (nonblocking : ℕ → Bool) (format : String → String → String)
    {S K : Type 0} where
  -- A client's builder without duplicate ports, asked for a sender: it takes the two ports of the
  -- schema, still without duplicates, and one sending task behind the others, or it refuses: for
  -- a port of the schema, if a port would be used twice, or for a socket.
  pub sender_with_sockets_lem :
      (b : ClientBuilder S K) (schema : ClientToServerSchema) (sockets : Mirroring → ℕ) (source : S)
      → Distinct b.ports
      → Adds b
          (schema.port ∷ schema.mapper_port ∷ [])
          (IsSending schema)
          (sender_with_sockets k nonblocking format b schema sockets source)
  unfolding sender_with_sockets ToServer.new
  sender_with_sockets_lem b schema sockets source distinct =
      elim (Bool-cases (contains schema.mapper_port b.ports)) [
        | inl used ↦
            rw (sender_with_sockets, used)
              (contains_second schema.mapper_port schema.port, λ d. cc (sym used ∙ d.1.0))
        | inr free ↦ elim (Bool-cases (contains schema.port (schema.mapper_port ∷ b.ports))) [
          | inl used ↦
              rw (sender_with_sockets, free, used)
                (contains_front schema.port (schema.mapper_port ∷ []), λ d. cc (sym used ∙ d.0))
          | inr free' ↦ elim (Bool-cases ready) [
            | inl opened ↦
                rw (sender_with_sockets, ToServer.new, free, free', opened)
                  (refl, refl, (free', (free, distinct)), _, refl, refl)
            | inr closed ↦ rw (sender_with_sockets, ToServer.new, free, free', closed) refl
          ]
        ]
      ]
    where
      ready : Bool
      ready =
          nonblocking (sockets audio_video)
          && (nonblocking (sockets background) && nonblocking (sockets voice))

  -- A client's builder without duplicate ports, asked for a receiver: it takes the mapper's port
  -- of the schema, still without duplicates, and one receiving task behind the others, or it
  -- refuses: for the port, if it would be used twice, or for the socket.
  pub receiver_with_socket_lem :
      (b : ClientBuilder S K) (schema : ServerToClientSchema) (socket : ℕ) (sink : K)
      → Distinct b.ports
      → Adds b
          (schema.mapper_port ∷ [])
          (IsReceiving schema)
          (receiver_with_socket k nonblocking format b schema socket sink)
  unfolding receiver_with_socket FromServer.new
  receiver_with_socket_lem b schema socket sink distinct =
      elim (Bool-cases (contains schema.mapper_port b.ports)) [
        | inl used ↦
            rw (receiver_with_socket, used)
              (contains_front schema.mapper_port [], λ d. cc (sym used ∙ d.0))
        | inr free ↦ elim (Bool-cases (nonblocking socket)) [
          | inl opened ↦
              rw (receiver_with_socket, FromServer.new, free, opened)
                (refl, refl, (free, distinct), _, refl, refl)
          | inr closed ↦ rw (receiver_with_socket, FromServer.new, free, closed) refl
        ]
      ]
