-- ===== src/Server/ToClients/Life.antt =====
-- All polls of the server's sending task, from its start on.
use Prim.Native.String.{String}
use longboy.Prelude.{ℕ, ◌≡◌, refl, Bool, true, false, none, some, List, [], ◌∷◌, ◌++◌}
use longboy.Proto.Constants.{Constants, IsValid}
use longboy.Proto.Cipher.{Rc5}
use longboy.Proto.Sender.{Source}
use longboy.Effects.{Mirroring, SocketAddr, Packet, Env, Outcome, done, panic, ◌>>=◌}
use longboy.Server.{ServerSessionEvent, Factory, Arena, Iter}
use longboy.Server.Events.{known_after}
use longboy.Server.Batches.{OnceBatches, known_behind}
use longboy.Server.ToClients.{SenderSession, ServerToClientSender, new, poll}
use longboy.Server.ToClients.Sound.{Ready, new-Ready}
use longboy.Server.ToClients.Rounds.{owed_all, poll-Polled}

-- What one poll reads: the clock, the channel of the server, and the mapper's socket.
pub record Reads : Type 0 where
  pub timestamp : ℕ
  pub events : List ServerSessionEvent
  pub mappings : List (List ℕ × SocketAddr)

abbrev pub batches : List Reads → List (List ServerSessionEvent)
batches [] = []
batches (one ∷ reads) = one.events ∷ batches reads

module _ (rc5 : Rc5) {k : Constants} (v : IsValid k) {S : Type 0} (source : Source k.size S)
    (env : Env) (takes : (p : Packet) → env.send_to p ≡ true) (arena : Arena (SenderSession S))
    (iter : Iter arena) {F : Type 0} (factory : Factory F S) where
  -- A run that comes to its end, in a state that satisfies `P`, whatever it sends.
  abbrev pub Finishes :
      (ServerToClientSender arena F → Type 0) → Outcome (ServerToClientSender arena F) → Type 0
  Finishes P o =
      (last : ServerToClientSender arena F) × (data_sent : List Packet) × (o ≡ done last data_sent)
      × P last

  -- The polls of a runtime, one after the other.
  unfoldable pub polls :
      ServerToClientSender arena F → List Reads → Outcome (ServerToClientSender arena F)
  polls t [] = done t []
  polls t (one ∷ reads) =
      poll arena rc5 k source env iter factory t one.timestamp one.events one.mappings >>= λ t'.
      polls t' reads

  polls-Ready :
      (reads : List Reads) (known : ℕ → Bool) (t : ServerToClientSender arena F)
      → Ready rc5 v arena known t
      → OnceBatches known (batches reads)
      → Finishes (Ready rc5 v arena (known_behind known (batches reads))) (polls t reads)
  unfolding polls
  polls-Ready [] known t h once = (t, [], refl, h)
  polls-Ready (one ∷ reads) known t h once =
      let one_poll =
        poll-Polled rc5 v source env takes arena iter factory known t one.timestamp one.events
          one.mappings h once.0 in
      let (last, data_sent, e, ready) =
        polls-Ready reads (known_after known one.events) one_poll.last one_poll.ready once.1 in
      (
        last,
        owed_all rc5 k source arena one.timestamp one_poll.mapped.sockets one_poll.mapped.sessions
              (iter.indices one_poll.mapped.sessions)
            ++ data_sent,
        rw (polls, one_poll.polls, e) refl,
        ready,
      )

  -- The task, from its start.
  unfoldable pub life :
      (nonblocking : ℕ → Bool)
      → String
      → ℕ
      → (Mirroring → ℕ)
      → F
      → List Reads
      → Outcome (ServerToClientSender arena F)
  unfolding polls
  life nonblocking name mapper_socket sockets source_factory reads =
      elim (new arena nonblocking name mapper_socket sockets source_factory) [
        | none ↦ panic
        | some t ↦ polls t reads
      ]

  -- The whole life of a server's sending task: in any sequence of polls that read such events,
  -- and whatever arrives on the mapper's socket, no poll panics.
  pub life-Ready :
      (nonblocking : ℕ → Bool) (name : String) (mapper_socket : ℕ) (sockets : Mirroring → ℕ)
      (source_factory : F) (reads : List Reads)
      → ((socket : ℕ) → nonblocking socket ≡ true)
      → OnceBatches (λ id. false) (batches reads)
      → Finishes
          (Ready rc5 v arena (known_behind (λ id. false) (batches reads)))
          (life nonblocking name mapper_socket sockets source_factory reads)
  unfolding life
  life-Ready nonblocking name mapper_socket sockets source_factory reads opened once =
      let (t, e, h) =
        new-Ready rc5 v arena nonblocking name mapper_socket sockets source_factory opened in
      rw (life, e) (polls-Ready reads (λ id. false) t h once)
