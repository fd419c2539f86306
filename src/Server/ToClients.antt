-- ===== src/Server/ToClients.antt =====
-- crates/longboy/src/server/server_to_client_sender.rs. Logging is left out.
pub mod Sound
pub mod Life
pub mod Rounds
use Prim.Native.String.{String}
use longboy.Prelude.{
  ℕ, ◌+◌, ◌≡◌, Bool, true, false, ◌&&◌, Option, none, some, List, [], ◌∷◌, length, min, replicate,
  ◌==◌, if◌then◌else◌,
}
use longboy.Prelude.Slices.{slice, write}
use longboy.Prelude.Bytes.{from_le_bytes}
use longboy.Proto.Constants.{Constants}
use longboy.Proto.Cipher.{Rc5}
use longboy.Proto.Sender
use longboy.Proto.Sender.{Source, Sender, poll_datagram}
use longboy.Effects.{
  Mirroring, audio_video, background, voice, SocketAddr, Packet, Env, Outcome, done, panic, ◌>>=◌,
  ◌>>◌, send_all,
}
use longboy.Client.ToServer.{each}
use longboy.Server.{ServerSessionEvent, connected, disconnected, Factory, Arena, Iter}
use longboy.Server.Maps.{Map, insert, remove}

pub record SenderSession (S : Type 0) : Type 0 where
  pub socket_addr : Option SocketAddr
  pub sender : Sender S

pub record ServerToClientSender {S : Type 0} (arena : Arena (SenderSession S)) (F : Type 0)
    : Type 0 where
  pub name : String
  pub mapper_socket : ℕ
  pub sockets : Mirroring → ℕ
  pub sessions : arena.Table
  pub session_id_to_session_map : Map
  pub source_factory : F

-- A datagram leaves by every socket, if it is known where to.
unfoldable pub mirror :
    Env → (Mirroring → ℕ) → Option SocketAddr → Option (List ℕ) → Outcome (Unit {0})
mirror env sockets (some socket_addr) (some datagram) =
    send_all env (each λ m. record { socket = sockets m; to = socket_addr; bytes = datagram })
mirror env sockets none (some datagram) = done tt []
mirror env sockets socket_addr none = done tt []

module _ {S : Type 0} (arena : Arena (SenderSession S)) {F : Type 0} where
  -- `new`. `nonblocking` says on which sockets `set_nonblocking(true)` succeeds; the calls that set
  -- the quality of service always do. The session events are an argument of `poll`.
  unfoldable pub new :
      (nonblocking : ℕ → Bool)
      → String
      → ℕ
      → (Mirroring → ℕ)
      → F
      → Option (ServerToClientSender arena F)
  new nonblocking name mapper_socket sockets source_factory =
      if nonblocking mapper_socket
        && (nonblocking (sockets audio_video)
            && (nonblocking (sockets background) && nonblocking (sockets voice)))
      then some (record {
        name = name;
        mapper_socket = mapper_socket;
        sockets = sockets;
        sessions = arena.empty;
        session_id_to_session_map = λ id. none;
        source_factory = source_factory;
      })
      else none

  module _ (k : Constants) (factory : Factory F S) where
    -- `Connected`: `try_insert` fails if the session is there already.
    unfoldable pub connect :
        ServerToClientSender arena F → ℕ → ℕ → Outcome (ServerToClientSender arena F)
    unfolding Sender.new
    connect t session_id cipher_key =
        let (source, source_factory) = factory.invoke t.source_factory session_id in
        let session : SenderSession S = record {
          socket_addr = none;
          sender = Sender.new k cipher_key source;
        } in
        let (index, sessions) = arena.insert session t.sessions in
        elim (t.session_id_to_session_map session_id) [
          | some old ↦ panic
          | none ↦
              done
                (record t {
                  sessions = sessions;
                  session_id_to_session_map = insert session_id index t.session_id_to_session_map;
                  source_factory = source_factory;
                })
                []
        ]

  -- `Disconnected`; here the result of the arena's `remove` is not looked at.
  unfoldable pub disconnect :
      ServerToClientSender arena F → ℕ → Outcome (ServerToClientSender arena F)
  disconnect t session_id = elim (t.session_id_to_session_map session_id) [
    | none ↦ panic
    | some index ↦
        done
          (record t {
            sessions = (arena.remove index t.sessions).1;
            session_id_to_session_map = remove session_id t.session_id_to_session_map;
          })
          []
  ]

  module _ (k : Constants) (factory : Factory F S) where
    unfoldable pub handle_event :
        ServerToClientSender arena F → ServerSessionEvent → Outcome (ServerToClientSender arena F)
    handle_event t (connected session_id cipher_key) = connect k factory t session_id cipher_key
    handle_event t (disconnected session_id) = disconnect t session_id

    unfoldable pub poll_server_session_events :
        ServerToClientSender arena F
        → List ServerSessionEvent
        → Outcome (ServerToClientSender arena F)
    poll_server_session_events t [] = done t []
    poll_server_session_events t (event ∷ events) =
        handle_event t event >>= λ t'. poll_server_session_events t' events

  -- `self.sessions[*index].socket_addr = Some(socket_addr)`
  unfoldable pub map_address :
      ServerToClientSender arena F → ℕ → SocketAddr → Outcome (ServerToClientSender arena F)
  map_address t index socket_addr = elim (arena.get index t.sessions) [
    | none ↦ panic
    | some session ↦
        done
          (record t {
            sessions =
                arena.update index (record session { socket_addr = some socket_addr }) t.sessions;
          })
          []
  ]

  -- A heartbeat as it stands in the buffer, `len` bytes of it received.
  unfoldable pub read_mapping :
      ServerToClientSender arena F
      → ℕ
      → List ℕ
      → SocketAddr
      → Outcome (ServerToClientSender arena F)
  read_mapping t len buffer socket_addr =
      let mapped : Outcome (ServerToClientSender arena F) =
        elim (t.session_id_to_session_map (from_le_bytes (slice buffer 0 8))) [
          | none ↦ done t []
          | some index ↦ map_address t index socket_addr
        ] in
      if len == 8 then mapped else done t []

  -- The loop on the mapper socket's `recv_from`, into one buffer of 64 bytes.
  unfoldable pub poll_for_client_socket_addresses :
      ServerToClientSender arena F
      → List (List ℕ × SocketAddr)
      → List ℕ
      → Outcome (ServerToClientSender arena F)
  poll_for_client_socket_addresses t [] buffer = done t []
  poll_for_client_socket_addresses t ((bytes, socket_addr) ∷ incoming) buffer =
      let received = write buffer 0 bytes in
      read_mapping t (min (length bytes) (length buffer)) received socket_addr >>= λ t'.
      poll_for_client_socket_addresses t' incoming received

  module _ (rc5 : Rc5) (k : Constants) (source : Source k.size S) (env : Env) where
    -- The loop on the sessions at the indices that `iter_mut` yields.
    unfoldable pub poll_each :
        ServerToClientSender arena F → ℕ → List ℕ → Outcome (ServerToClientSender arena F)
    poll_each t timestamp [] = done t []
    poll_each t timestamp (index ∷ indices) = elim (arena.get index t.sessions) [
      | none ↦ poll_each t timestamp indices
      | some session ↦
          let (sender, datagram) = poll_datagram rc5 k source session.sender timestamp in
          let polled : ServerToClientSender arena F = record t {
            sessions = arena.update index (record session { sender = sender }) t.sessions;
          } in
          mirror env t.sockets session.socket_addr datagram >> poll_each polled timestamp indices
    ]

    module _ (iter : Iter arena) where
      unfoldable pub poll_sessions :
          ServerToClientSender arena F → ℕ → Outcome (ServerToClientSender arena F)
      poll_sessions t timestamp = poll_each t timestamp (iter.indices t.sessions)

      unfoldable pub poll :
          Factory F S
          → ServerToClientSender arena F
          → ℕ
          → (events : List ServerSessionEvent) → (mappings : List (List ℕ × SocketAddr))
          → Outcome (ServerToClientSender arena F)
      poll factory t timestamp events mappings = do
        t' ← poll_server_session_events k factory t events
        t'' ← poll_for_client_socket_addresses t' mappings (replicate 64 0)
        poll_sessions t'' timestamp
