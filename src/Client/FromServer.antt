-- ===== src/Client/FromServer.antt =====
-- crates/longboy/src/client/server_to_client_receiver.rs
pub mod Laws
use Prim.Native.String.{String}
use longboy.Prelude.{
  ℕ, ◌+◌, ◌%◌, ◌≡◌, Bool, true, false, Option, none, some, List, [], ◌∷◌, length, min, replicate,
  leb, ◌==◌, if◌then◌else◌,
}
use longboy.Prelude.Slices.{slice, write}
use longboy.Prelude.Bytes.{to_le_bytes}
use longboy.Proto.Constants.{Constants, datagram_size}
use longboy.Proto.Cipher.{Rc5}
use longboy.Proto.Receiver
use longboy.Proto.Receiver.{Sink, Receiver, handle_datagram}
use longboy.Effects.{SocketAddr, Packet, Env, Outcome, done, panic, ◌>>=◌, ◌>>◌, send_to, add_u16}

pub record ServerToClientReceiver (K : Type 0) : Type 0 where
  pub name : String
  pub mapper_socket_addr : SocketAddr
  pub heartbeat_period : ℕ
  pub socket : ℕ
  pub session_id : ℕ
  pub next_heartbeat : ℕ
  pub receiver : Receiver K

module _ (k : Constants) {K : Type 0} where
  -- `new`. `nonblocking` says on which sockets `set_nonblocking(true)` succeeds.
  unfoldable pub new :
      (nonblocking : ℕ → Bool)
      → String
      → SocketAddr
      → ℕ
      → ℕ
      → ℕ
      → ℕ
      → K
      → Option (ServerToClientReceiver K)
  unfolding Receiver.new
  new nonblocking name mapper_socket_addr heartbeat_period session_id cipher_key socket sink =
      if nonblocking socket
      then some (record {
        name = name;
        mapper_socket_addr = mapper_socket_addr;
        heartbeat_period = heartbeat_period;
        socket = socket;
        session_id = session_id;
        next_heartbeat = 0;
        receiver = Receiver.new k cipher_key sink;
      })
      else none

-- Heartbeat to Server: eight bytes.
unfoldable pub heartbeat :
    {K : Type 0} → Env → ServerToClientReceiver K → ℕ → Outcome (ServerToClientReceiver K)
heartbeat env t timestamp =
    if leb t.next_heartbeat timestamp
    then (do
      send_to env (record {
        socket = t.socket;
        to = t.mapper_socket_addr;
        bytes = write (replicate 8 0) 0 (to_le_bytes 8 t.session_id);
      })
      next ← add_u16 env timestamp t.heartbeat_period
      done (record t { next_heartbeat = next }) [])
    else done t []

module _ (rc5 : Rc5) (k : Constants) {K : Type 0} (sink : Sink K) where
  -- The loop on `recv_from`, over the datagrams that it yields before its first error. Each is
  -- received into the one buffer, which keeps what it does not overwrite, and is cut off at its end.
  unfoldable pub process_datagrams : ℕ → List (List ℕ) → List ℕ → Receiver K → Receiver K
  process_datagrams timestamp [] buffer r = r
  process_datagrams timestamp (bytes ∷ incoming) buffer r =
      let received = write buffer 0 bytes in
      let len = min (length bytes) (length buffer) in
      let (r', datagram) =
        handle_datagram rc5 k sink r timestamp (slice received 0 (datagram_size k)) in
      let skipped = process_datagrams timestamp incoming received r in
      let handled = process_datagrams timestamp incoming (write received 0 datagram) r' in
      if len == datagram_size k then handled else skipped

  unfoldable pub poll :
      Env → ServerToClientReceiver K → ℕ → List (List ℕ) → Outcome (ServerToClientReceiver K)
  poll env t timestamp incoming = do
    t' ← heartbeat env t timestamp
    done
        (record t' {
          receiver = process_datagrams timestamp incoming (replicate 512 0) t'.receiver;
        })
        []
