-- ===== src/Server/FromClients/Life.antt =====
-- All polls of the server's receiving task, from its start on.
use Prim.Native.String.{String}
use longboy.Prelude.{ℕ, ◌≡◌, refl, Bool, true, false, Option, none, some, List, [], ◌∷◌}
use longboy.Proto.Constants.{Constants, IsValid}
use longboy.Proto.Cipher.{Rc5}
use longboy.Proto.Receiver.{Sink}
use longboy.Effects.{SocketAddr}
use longboy.Server.{ServerSessionEvent, Factory, Arena}
use longboy.Server.FromClients.{ReceiverSession, ClientToServerReceiver, new, poll}
use longboy.Server.Events.{known_after, Ends}
use longboy.Server.Batches.{OnceBatches, known_behind}
use longboy.Server.FromClients.Total.{Ready, new-Ready, poll-Ready}

-- What one poll reads: the clock, the channel of the server, and the two sockets.
pub record Reads : Type 0 where
  pub timestamp : ℕ
  pub events : List ServerSessionEvent
  pub mappings : List (List ℕ × SocketAddr)
  pub datagrams : List (List ℕ × SocketAddr)

abbrev pub batches : List Reads → List (List ServerSessionEvent)
batches [] = []
batches (one ∷ reads) = one.events ∷ batches reads

module _ (rc5 : Rc5) {k : Constants} (v : IsValid k) {K : Type 0} (sink : Sink K)
    (arena : Arena (ReceiverSession K)) {F : Type 0} (factory : Factory F K) where
  -- The polls of a runtime, one after the other.
  unfoldable pub polls :
      ClientToServerReceiver arena F → List Reads → Option (ClientToServerReceiver arena F)
  polls t [] = some t
  polls t (one ∷ reads) =
      elim (poll arena rc5 k sink factory t one.timestamp one.events one.mappings one.datagrams) [
        | none ↦ none
        | some t' ↦ polls t' reads
      ]

  polls-Ready :
      (reads : List Reads) (known : ℕ → Bool) (t : ClientToServerReceiver arena F)
      → Ready v arena factory known t
      → OnceBatches known (batches reads)
      → Ends (Ready v arena factory (known_behind known (batches reads))) (polls t reads)
  unfolding polls
  polls-Ready [] known t h once = (t, refl, h)
  polls-Ready (one ∷ reads) known t h once =
      let (t', e, h') =
        poll-Ready v arena factory rc5 sink known t one.timestamp one.events one.mappings
          one.datagrams h once.0 in
      rw (polls, e) (polls-Ready reads (known_after known one.events) t' h' once.1)

  -- The task, from its start.
  unfoldable pub life :
      (nonblocking : ℕ → Bool)
      → String
      → ℕ
      → ℕ
      → F
      → List Reads
      → Option (ClientToServerReceiver arena F)
  unfolding polls
  life nonblocking name mapper_socket socket sink_factory reads =
      elim (new arena nonblocking name mapper_socket socket sink_factory) [
        | none ↦ none
        | some t ↦ polls t reads
      ]

  -- The whole life of a server's receiving task, from its start on sockets that can be made
  -- non-blocking: in any sequence of polls, where each session is connected when it is not known
  -- and disconnected when it is, from poll to poll, and whatever arrives on the mapper's socket
  -- and on the data socket, from anyone, no poll panics; and behind the last one the task is
  -- sound and holds exactly the sessions that are known then.
  pub life-Ready :
      (nonblocking : ℕ → Bool) (name : String) (mapper_socket socket : ℕ) (sink_factory : F)
      (reads : List Reads)
      → nonblocking mapper_socket ≡ true
      → nonblocking socket ≡ true
      → OnceBatches (λ id. false) (batches reads)
      → Ends
          (Ready v arena factory (known_behind (λ id. false) (batches reads)))
          (life nonblocking name mapper_socket socket sink_factory reads)
  unfolding life
  life-Ready nonblocking name mapper_socket socket sink_factory reads a b once =
      let (t, e, h) =
        new-Ready v arena factory nonblocking name mapper_socket socket sink_factory a b in
      rw (life, e) (polls-Ready reads (λ id. false) t h once)
