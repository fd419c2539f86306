-- ===== src/Server/Builder/Channels.antt =====
-- A built server: its runtime has all tasks, and each task has a channel of its own.
use Prim.Native.String.{String}
use longboy.Prelude.{
  ℕ, zero, suc, ◌+◌, ◌≡◌, refl, sym, ◌∙◌, ap, arith, Bool, false, inr, List, [], ◌∷◌, ◌++◌, map,
  foldl, length, replicate, length-append,
}
use longboy.Effects.{Mirroring, ClientToServerSchema, ServerToClientSchema}
use longboy.Builders.{Distinct}
use longboy.Server.{ServerSessionEvent, Arena}
use longboy.Server.ToClients.{SenderSession}
use longboy.Server.FromClients.{ReceiverSession}
use longboy.Server.Events.{Once}
use longboy.Server.Registry.{Server, contains_key}
use longboy.Server.Registry.Streams.{Calls, Calls-Once}
use longboy.Server.Builder.{
  ServerTask, ServerBuilder, builder, sender_with_sockets, receiver_with_socket, build,
}
use longboy.Server.Builder.Ports.{Adds, sender_with_sockets-Adds, receiver_with_socket-Adds}

replicate_last : {A : Type 0} (n : ℕ) (a : A) → replicate n a ++ a ∷ [] ≡ replicate (suc n) a
replicate_last zero a = refl
replicate_last (suc n) a = ap (◌∷◌ a) (replicate_last n a)

map-replicate :
    {A B : Type 0} (f : A → B) (n : ℕ) (a : A) → map f (replicate n a) ≡ replicate n (f a)
map-replicate f zero a = refl
map-replicate f (suc n) a = ap (◌∷◌ (f a)) (map-replicate f n a)

module _ {S K : Type 0} (senders : Arena (SenderSession S)) (receivers : Arena (ReceiverSession K))
    {F G : Type 0} (local_port : ℕ → ℕ) (nonblocking : ℕ → Bool)
    (format : String → String → String) where
  -- The builders that calls lead to, from an empty one on.
  pub data Built : ServerBuilder senders receivers F G → Type 0 where
    empty : (session_capacity : ℕ) → Built (builder senders receivers session_capacity)
    sender :
        {b b' : ServerBuilder senders receivers F G}
        → Built b
        → (schema : ServerToClientSchema) (mapper_socket : ℕ) (sockets : Mirroring → ℕ)
          (source_factory : F)
        → sender_with_sockets senders receivers local_port nonblocking format b schema mapper_socket
            sockets source_factory
          ≡ inr b'
        → Built b'
    receiver :
        {b b' : ServerBuilder senders receivers F G}
        → Built b
        → (schema : ClientToServerSchema) (mapper_socket socket : ℕ) (sink_factory : G)
        → receiver_with_socket senders receivers local_port nonblocking format b schema
            mapper_socket socket sink_factory
          ≡ inr b'
        → Built b'

  -- The ports that are entered are distinct, and each task has a channel on which nothing has been sent.
  record Paired (b : ServerBuilder senders receivers F G) : Type 0 where
    ports : Distinct b.ports
    channels : b.session_senders ≡ replicate (length b.tasks) []

  added :
      {IsTask : ServerTask senders receivers F G → Type 0}
      (b b' : ServerBuilder senders receivers F G) (port : ℕ) (pairs : List (ℕ × ℕ))
      → Paired b
      → Adds b port pairs IsTask (inr b')
      → Paired b'
  added b b' port pairs h (_, _, _, distinct, channels, task, _, tasks) =
      let one : length b.tasks + 1 ≡ suc (length b.tasks) = omega arith in
      record {
        ports = distinct;
        channels =
            channels
            ∙ ap (λ cs. cs ++ [] ∷ []) h.channels
            ∙ replicate_last (length b.tasks) []
            ∙ ap (λ (n : ℕ). replicate n [])
                (sym (ap length tasks ∙ length-append b.tasks (task ∷ []) ∙ one));
      }

  Built-Paired : {b : ServerBuilder senders receivers F G} → Built b → Paired b
  unfolding builder
  Built-Paired (empty session_capacity) = record { ports = tt; channels = refl }
  Built-Paired (sender {b = b} {b' = b'} built schema mapper_socket sockets source_factory e) =
      let h = Built-Paired built in
      let adds =
        sender_with_sockets-Adds senders receivers local_port nonblocking format b schema
          mapper_socket sockets source_factory h.ports in
      added b b' schema.mapper_port ((schema.mapper_port, local_port mapper_socket) ∷ []) h
        (let adds' = rw e at adds in adds')
  Built-Paired (receiver {b = b} {b' = b'} built schema mapper_socket socket sink_factory e) =
      let h = Built-Paired built in
      let adds =
        receiver_with_socket-Adds senders receivers local_port nonblocking format b schema
          mapper_socket socket sink_factory h.ports in
      added b b' schema.mapper_port
        ((schema.mapper_port, local_port mapper_socket) ∷ (schema.port, local_port socket) ∷ []) h
        (let adds' = rw e at adds in adds')

  -- A server built by any sequence of successful calls to the builder, from an empty one: the
  -- ports that the builder has entered, among which the data port of a receiver never is, are
  -- distinct, and the runtime is given all tasks in order. After any calls to the server that
  -- register no session twice, the channel of each task has been sent the same events in the
  -- order of the calls, and among them a session is connected only when it is not known and
  -- disconnected only when it is.
  pub build-Calls :
      {R : Type 0} {b : ServerBuilder senders receivers F G} {u : Server}
      {events : List ServerSessionEvent} (with_capacity : ℕ → ℕ)
      (spawn : R → ServerTask senders receivers F G → R) (runtime : R)
      → Built b
      → Calls (build senders receivers with_capacity spawn runtime b).0 events u
      → Distinct b.ports
        × ((build senders receivers with_capacity spawn runtime b).1 ≡ foldl spawn runtime b.tasks)
        × Once (λ id. false) events
        × (u.session_senders ≡ replicate (length b.tasks) events)
  unfolding build contains_key
  build-Calls {b = b} {events = events} with_capacity spawn runtime built calls =
      let h = Built-Paired built in
      let (once, sent) = Calls-Once calls in
      (
        h.ports,
        refl,
        once,
        sent
            ∙ ap (map (λ channel. channel ++ events)) h.channels
            ∙ map-replicate (λ channel. channel ++ events) (length b.tasks) [],
      )
