-- ===== src/Server/Registry/Lives.antt =====
-- A server and its two tasks: the calls on the one end of the channels, all polls on the other.
use Prim.Native.String.{String}
use longboy.Prelude.{
  ℕ, ◌≡◌, refl, sym, ◌∙◌, ap, Bool, true, false, List, [], ◌∷◌, ◌++◌, map, get_or, subst, ◌==◌,
  if◌then◌else◌,
}
use longboy.Proto.Constants.{Constants, IsValid}
use longboy.Proto.Cipher.{Rc5}
use longboy.Proto.Sender.{Source}
use longboy.Proto.Receiver.{Sink}
use longboy.Effects.{Mirroring, Packet, Env}
use longboy.Server.{ServerSessionEvent, Factory, Arena, Iter}
use longboy.Server.Events.{Once, Ends, known_after}
use longboy.Server.Batches.{stream, known_behind, Once-batches, known_after-stream}
use longboy.Server.FromClients.{ReceiverSession}
use longboy.Server.FromClients.Total as Receivers
use longboy.Server.FromClients.Life as Receiving
use longboy.Server.ToClients.{SenderSession}
use longboy.Server.ToClients.Sound as Senders
use longboy.Server.ToClients.Life as Sending
use longboy.Server.Registry.{Server, contains_key}
use longboy.Server.Registry.Streams.{
  Calls, stop, registered, unregistered, known, register-some, unregister-some, contains-insert,
  contains-remove, Calls-Once,
}

-- The events of the calls lead from the sessions that the server knew to those it knows.
pub Calls-known :
    {s u : Server} {events : List ServerSessionEvent}
    → Calls s events u
    → known_after (known s) events ≡ known u
Calls-known stop = refl
Calls-known {s} (registered {t = t} {events = events} id key fresh e calls) =
    let (now, _) = register-some s t id key e in
    let same : known t ≡ (λ n. if n == id then true else known s n) =
      λ i n. (ap (contains_key n) now ∙ contains-insert id key n s.sessions) i in
    ap (λ (f : ℕ → Bool). known_after f events) (sym same) ∙ Calls-known calls
Calls-known {s} (unregistered {t = t} {events = events} id e calls) =
    let (_, now, _) = unregister-some s t id e in
    let same : known t ≡ (λ n. if n == id then false else known s n) =
      λ i n. (ap (contains_key n) now ∙ contains-remove id n s.sessions) i in
    ap (λ (f : ℕ → Bool). known_after f events) (sym same) ∙ Calls-known calls

module _ (rc5 : Rc5) {k : Constants} (v : IsValid k) (nonblocking : ℕ → Bool)
    (opened : (socket : ℕ) → nonblocking socket ≡ true) {S : Type 0} (source : Source k.size S)
    (env : Env) (takes : (p : Packet) → env.send_to p ≡ true) (senders : Arena (SenderSession S))
    (iter : Iter senders) {F : Type 0} (sources : Factory F S) {K : Type 0} (sink : Sink K)
    (receivers : Arena (ReceiverSession K)) {G : Type 0} (sinks : Factory G K) where
  -- The sending task comes to its end behind `reads` and holds the sessions that, with the events
  -- that it has not read, are those of the server.
  abbrev pub SenderFollows :
      String
      → ℕ
      → (Mirroring → ℕ)
      → F
      → Server
      → List Sending.Reads
      → List ServerSessionEvent
      → Type 0
  SenderFollows name mapper_socket sockets source_factory server reads unread =
      (held : ℕ → Bool) × Sending.Finishes rc5 v source env takes senders iter sources
        (Senders.Ready rc5 v senders held)
        (Sending.life rc5 v source env takes senders iter sources nonblocking name mapper_socket
          sockets source_factory reads)
      × (known_after held unread ≡ known server)

  -- And the receiving task.
  abbrev pub ReceiverFollows :
      String → ℕ → ℕ → G → Server → List Receiving.Reads → List ServerSessionEvent → Type 0
  ReceiverFollows name mapper_socket socket sink_factory server reads unread =
      (held : ℕ → Bool) × Ends (Receivers.Ready v receivers sinks held) (
        Receiving.life rc5 v sink receivers sinks nonblocking name mapper_socket socket sink_factory
          reads)
      × (known_after held unread ≡ known server)

  -- A server that knows no session, with a sending and a receiving task of its own whose channels
  -- are empty, on sockets that can be made non-blocking and a network that takes the packets. Any
  -- calls of `register` and `unregister` that do not panic and register no session twice; each
  -- task reads its channel in any number of polls, cut up in any way and to any point, and
  -- whatever arrives on its other sockets. Then both tasks come to the end of their polls, from
  -- their start on, without a panic, in a sound state, and the sessions that a task holds, with
  -- the events still in its channel, are exactly those that the server knows.
  pub two_tasks-Follows :
      (s u : Server) (events : List ServerSessionEvent) (reads : List Sending.Reads)
      (unread : List ServerSessionEvent) (reads' : List Receiving.Reads)
      (unread' : List ServerSessionEvent) (name name' : String) (mapper_socket mapper_socket' : ℕ)
      (sockets : Mirroring → ℕ) (socket' : ℕ) (source_factory : F) (sink_factory : G)
      → s.sessions ≡ []
      → s.session_senders ≡ [] ∷ [] ∷ []
      → Calls s events u
      → u.session_senders
        ≡ stream (Sending.batches reads) unread ∷ stream (Receiving.batches reads') unread' ∷ []
      → SenderFollows name mapper_socket sockets source_factory u reads unread
        × ReceiverFollows name' mapper_socket' socket' sink_factory u reads' unread'
  unfolding contains_key
  two_tasks-Follows s u events reads unread reads' unread' name name' mapper_socket mapper_socket'
        sockets socket' source_factory sink_factory fresh idle calls cut =
      let (once, channels) = Calls-Once calls in
      let nobody : known s ≡ (λ id. false) = ap (λ entries n. contains_key n entries) fresh in
      let once' : Once (λ id. false) events = subst (λ f. Once f events) nobody once in
      let known' : known_after (λ id. false) events ≡ known u =
        ap (λ f. known_after f events) (sym nobody) ∙ Calls-known calls in
      let cut' : events ∷ events ∷ []
          ≡ stream (Sending.batches reads) unread ∷ stream (Receiving.batches reads') unread' ∷ [] =
        ap (map (λ channel. channel ++ events)) (sym idle) ∙ sym channels ∙ cut in
      let first = ap (λ c. get_or c 0 []) cut' in
      let second = ap (λ c. get_or c 1 []) cut' in
      (
        (
          known_behind (λ id. false) (Sending.batches reads),
          Sending.life-Ready rc5 v source env takes senders iter sources nonblocking name
              mapper_socket sockets source_factory reads opened
              (Once-batches (Sending.batches reads) unread (λ id. false)
                (subst (Once (λ id. false)) first once')),
          sym (known_after-stream (Sending.batches reads) unread (λ id. false))
              ∙ ap (known_after (λ id. false)) (sym first)
              ∙ known',
        ),
        (
          known_behind (λ id. false) (Receiving.batches reads'),
          Receiving.life-Ready rc5 v sink receivers sinks nonblocking name' mapper_socket' socket'
              sink_factory reads' (opened mapper_socket') (opened socket')
              (Once-batches (Receiving.batches reads') unread' (λ id. false)
                (subst (Once (λ id. false)) second once')),
          sym (known_after-stream (Receiving.batches reads') unread' (λ id. false))
              ∙ ap (known_after (λ id. false)) (sym second)
              ∙ known',
        ),
      )
