-- ===== src/Server/FromClients.antt =====
-- crates/longboy/src/server/client_to_server_receiver.rs. `none` is a panic. Logging is left out.
pub mod Sound
pub mod Polls
mod Ids
pub mod Total
pub mod Life
pub mod Delivery
pub mod Arrivals
use Prim.Native.String.{String}
use longboy.Prelude.{
  ℕ, ◌+◌, ◌≡◌, Bool, true, false, ◌&&◌, Option, none, some, List, [], ◌∷◌, length, foldl, min,
  get_or, replicate, ltb, leb, ◌==◌, if◌then◌else◌,
}
use longboy.Prelude.Slices.{slice, write}
use longboy.Prelude.Bytes.{from_le_bytes}
use longboy.Proto.Constants.{Constants, datagram_size}
use longboy.Proto.Cipher.{Rc5}
use longboy.Proto.Receiver
use longboy.Proto.Receiver.{Sink, Receiver, handle_datagram}
use longboy.Effects.{Mirroring, audio_video, background, voice, SocketAddr}
use longboy.Client.ToServer.{each}
use longboy.Server.{ServerSessionEvent, connected, disconnected, Factory, Arena}
use longboy.Server.Maps.{Map, insert, remove, forget, assign}

pub record ReceiverSession (K : Type 0) : Type 0 where
  pub socket_addrs : Mirroring → Option SocketAddr
  pub receiver : Receiver K

pub record ClientToServerReceiver {K : Type 0} (arena : Arena (ReceiverSession K)) (F : Type 0)
    : Type 0 where
  pub name : String
  pub mapper_socket : ℕ
  pub socket : ℕ
  pub sessions : arena.Table
  pub session_id_to_session_map : Map
  pub socket_addr_to_session_map : Map
  pub sink_factory : F

-- `Mirroring::from_usize`, for a number below `Mirroring::LENGTH`.
abbrev pub from_usize : ℕ → Mirroring
from_usize n = if n == 0 then audio_video else (if n == 1 then background else voice)

module _ {K : Type 0} (arena : Arena (ReceiverSession K)) {F : Type 0} where
  -- `new`. `nonblocking` says on which sockets `set_nonblocking(true)` succeeds. The session events
  -- are an argument of `poll`; capacities are not modelled.
  unfoldable pub new :
      (nonblocking : ℕ → Bool) → String → ℕ → ℕ → F → Option (ClientToServerReceiver arena F)
  new nonblocking name mapper_socket socket sink_factory =
      if nonblocking mapper_socket && nonblocking socket
      then some (record {
        name = name;
        mapper_socket = mapper_socket;
        socket = socket;
        sessions = arena.empty;
        session_id_to_session_map = λ id. none;
        socket_addr_to_session_map = λ addr. none;
        sink_factory = sink_factory;
      })
      else none

  module _ (k : Constants) (factory : Factory F K) where
    -- `Connected`: `try_insert` fails if the session is there already.
    unfoldable pub connect :
        ClientToServerReceiver arena F → ℕ → ℕ → Option (ClientToServerReceiver arena F)
    unfolding Receiver.new
    connect t session_id cipher_key =
        let (sink, sink_factory) = factory.invoke t.sink_factory session_id in
        let session : ReceiverSession K = record {
          socket_addrs = λ m. none;
          receiver = Receiver.new k cipher_key sink;
        } in
        let (index, sessions) = arena.insert session t.sessions in
        elim (t.session_id_to_session_map session_id) [
          | some old ↦ none
          | none ↦ some (record t {
            sessions = sessions;
            session_id_to_session_map = insert session_id index t.session_id_to_session_map;
            sink_factory = sink_factory;
          })
        ]

  -- What `Disconnected` does behind the look-up of the session's index.
  unfoldable pub disconnect_at :
      ClientToServerReceiver arena F → ℕ → ℕ → Option (ClientToServerReceiver arena F)
  disconnect_at t session_id index =
      let (removed, sessions) = arena.remove index t.sessions in
      elim removed [
        | none ↦ none
        | some session ↦ some (record t {
          sessions = sessions;
          session_id_to_session_map = remove session_id t.session_id_to_session_map;
          socket_addr_to_session_map =
              foldl forget t.socket_addr_to_session_map (each session.socket_addrs);
        })
      ]

  unfoldable pub disconnect :
      ClientToServerReceiver arena F → ℕ → Option (ClientToServerReceiver arena F)
  disconnect t session_id = elim (t.session_id_to_session_map session_id) [
    | none ↦ none
    | some index ↦ disconnect_at t session_id index
  ]

  module _ (k : Constants) (factory : Factory F K) where
    unfoldable pub handle_event :
        ClientToServerReceiver arena F
        → ServerSessionEvent
        → Option (ClientToServerReceiver arena F)
    handle_event t (connected session_id cipher_key) = connect k factory t session_id cipher_key
    handle_event t (disconnected session_id) = disconnect t session_id

    unfoldable pub poll_server_session_events :
        ClientToServerReceiver arena F
        → List ServerSessionEvent
        → Option (ClientToServerReceiver arena F)
    poll_server_session_events t [] = some t
    poll_server_session_events t (event ∷ events) = elim (handle_event t event) [
      | none ↦ none
      | some t' ↦ poll_server_session_events t' events
    ]

  -- What a mapping does to the session at `index`.
  unfoldable pub map_address :
      ClientToServerReceiver arena F
      → ℕ
      → Mirroring
      → SocketAddr
      → Option (ClientToServerReceiver arena F)
  map_address t index mirroring socket_addr = elim (arena.get index t.sessions) [
    | none ↦ none
    | some session ↦ some (record t {
      sessions =
          arena.update index
            (record session {
              socket_addrs = assign session.socket_addrs mirroring (some socket_addr);
            })
            t.sessions;
      socket_addr_to_session_map =
          insert socket_addr index
            (forget t.socket_addr_to_session_map (session.socket_addrs mirroring));
    })
  ]

  -- A heartbeat as it stands in the buffer, `len` bytes of it received.
  unfoldable pub read_mapping :
      ClientToServerReceiver arena F
      → ℕ
      → List ℕ
      → SocketAddr
      → Option (ClientToServerReceiver arena F)
  read_mapping t len buffer socket_addr =
      let session_id = from_le_bytes (slice buffer 0 8) in
      let mirroring = get_or buffer 8 0 in
      let mapped : Option (ClientToServerReceiver arena F) =
        elim (t.session_id_to_session_map session_id) [
          | none ↦ some t
          | some index ↦ map_address t index (from_usize mirroring) socket_addr
        ] in
      if ltb len 9 then some t else (if leb 3 mirroring then some t else mapped)

  -- The loop on the mapper socket's `recv_from`, into one buffer of 64 bytes.
  unfoldable pub poll_for_client_socket_addresses :
      ClientToServerReceiver arena F
      → List (List ℕ × SocketAddr)
      → List ℕ
      → Option (ClientToServerReceiver arena F)
  poll_for_client_socket_addresses t [] buffer = some t
  poll_for_client_socket_addresses t ((bytes, socket_addr) ∷ incoming) buffer =
      let received = write buffer 0 bytes in
      elim (read_mapping t (min (length bytes) (length buffer)) received socket_addr) [
        | none ↦ none
        | some t' ↦ poll_for_client_socket_addresses t' incoming received
      ]

  module _ (rc5 : Rc5) (k : Constants) (sink : Sink K) where
    -- A datagram for the session at `index`, and the datagram as the receiver leaves it.
    unfoldable pub deliver :
        ClientToServerReceiver arena F
        → ℕ
        → ℕ
        → List ℕ
        → Option (ClientToServerReceiver arena F × List ℕ)
    deliver t timestamp index datagram = elim (arena.get index t.sessions) [
      | none ↦ none
      | some session ↦
          let (receiver, datagram') =
            handle_datagram rc5 k sink session.receiver timestamp datagram in
          some (
            record t {
              sessions = arena.update index (record session { receiver = receiver }) t.sessions;
            },
            datagram',
          )
    ]

    unfoldable pub read_datagram :
        ClientToServerReceiver arena F
        → ℕ
        → ℕ
        → List ℕ
        → SocketAddr
        → Option (ClientToServerReceiver arena F × List ℕ)
    read_datagram t timestamp len buffer socket_addr =
        let delivered : Option (ClientToServerReceiver arena F × List ℕ) =
          elim (t.socket_addr_to_session_map socket_addr) [
            | none ↦ some (t, slice buffer 0 (datagram_size k))
            | some index ↦ deliver t timestamp index (slice buffer 0 (datagram_size k))
          ] in
        if len == datagram_size k then delivered else some (t, slice buffer 0 (datagram_size k))

    -- The loop on the data socket's `recv_from`, into one buffer of 512 bytes.
    unfoldable pub poll_for_client_datagrams :
        ClientToServerReceiver arena F
        → ℕ
        → List (List ℕ × SocketAddr)
        → List ℕ
        → Option (ClientToServerReceiver arena F)
    poll_for_client_datagrams t timestamp [] buffer = some t
    poll_for_client_datagrams t timestamp ((bytes, socket_addr) ∷ incoming) buffer =
        let received = write buffer 0 bytes in
        elim (read_datagram t timestamp (min (length bytes) (length buffer)) received socket_addr) [
          | none ↦ none
          | some step ↦
              poll_for_client_datagrams step.0 timestamp incoming (write received 0 step.1)
        ]

    unfoldable pub poll :
        Factory F K
        → ClientToServerReceiver arena F
        → ℕ
        → (events : List ServerSessionEvent) → (mappings datagrams : List (List ℕ × SocketAddr))
        → Option (ClientToServerReceiver arena F)
    poll factory t timestamp events mappings datagrams =
        elim (poll_server_session_events k factory t events) [
          | none ↦ none
          | some t' ↦ elim (poll_for_client_socket_addresses t' mappings (replicate 64 0)) [
            | none ↦ none
            | some t'' ↦ poll_for_client_datagrams t'' timestamp datagrams (replicate 512 0)
          ]
        ]
