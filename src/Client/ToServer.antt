-- ===== src/Client/ToServer.antt =====
-- crates/longboy/src/client/client_to_server_sender.rs
pub mod Laws
use Prim.Native.String.{String}
use longboy.Prelude.{
  ℕ, ◌+◌, ◌%◌, ◌≡◌, Bool, true, false, ◌&&◌, Option, none, some, List, [], ◌∷◌, set, replicate, leb,
  if◌then◌else◌,
}
use longboy.Prelude.Slices.{write}
use longboy.Prelude.Bytes.{to_le_bytes}
use longboy.Proto.Constants.{Constants}
use longboy.Proto.Cipher.{Rc5}
use longboy.Proto.Sender
use longboy.Proto.Sender.{Source, Sender, poll_datagram}
use longboy.Effects.{
  Mirroring, audio_video, background, voice, into_usize, SocketAddr, Packet, Env, Outcome, done,
  panic, ◌>>=◌, ◌>>◌, send_all, add_u16,
}

-- `sockets` is the `EnumMap` of the sockets, a socket being a number.
pub record ClientToServerSender (S : Type 0) : Type 0 where
  pub name : String
  pub mapper_socket_addr : SocketAddr
  pub heartbeat_period : ℕ
  pub socket_addr : SocketAddr
  pub sockets : Mirroring → ℕ
  pub session_id : ℕ
  pub next_heartbeat : ℕ
  pub sender : Sender S

-- `EnumMap::values`, in the order of the variants.
abbrev pub each : {A : Type 0} → (Mirroring → A) → List A
each f = f audio_video ∷ f background ∷ f voice ∷ []

module _ (k : Constants) {S : Type 0} where
  -- `new`. `nonblocking` says on which sockets `set_nonblocking(true)` succeeds; the calls that
  -- set the quality of service always do.
  unfoldable pub new :
      (nonblocking : ℕ → Bool)
      → String
      → SocketAddr
      → ℕ
      → SocketAddr
      → ℕ
      → ℕ
      → (Mirroring → ℕ)
      → S
      → Option (ClientToServerSender S)
  unfolding Sender.new
  new nonblocking name mapper_socket_addr heartbeat_period socket_addr session_id cipher_key sockets
        source =
      if nonblocking (sockets audio_video)
        && (nonblocking (sockets background) && nonblocking (sockets voice))
      then some (record {
        name = name;
        mapper_socket_addr = mapper_socket_addr;
        heartbeat_period = heartbeat_period;
        socket_addr = socket_addr;
        sockets = sockets;
        session_id = session_id;
        next_heartbeat = 0;
        sender = Sender.new k cipher_key source;
      })
      else none

-- The nine bytes of a heartbeat: the session, and which socket it leaves by.
unfoldable pub heartbeat_bytes : ℕ → Mirroring → List ℕ
unfolding into_usize
heartbeat_bytes session_id mirroring =
    set (write (replicate 9 0) 0 (to_le_bytes 8 session_id)) 8 (into_usize mirroring % 256)

module _ (env : Env) {S : Type 0} where
  -- Heartbeat to Server.
  unfoldable pub heartbeat : ClientToServerSender S → ℕ → Outcome (ClientToServerSender S)
  heartbeat t timestamp =
      if leb t.next_heartbeat timestamp
      then (do
        send_all env (
            each λ m. record {
              socket = t.sockets m;
              to = t.mapper_socket_addr;
              bytes = heartbeat_bytes t.session_id m;
            })
        next ← add_u16 env timestamp t.heartbeat_period
        done (record t { next_heartbeat = next }) [])
      else done t []

  -- The datagram, if there is one, leaves by every socket.
  unfoldable pub mirror :
      ClientToServerSender S → Option (List ℕ) → Outcome (ClientToServerSender S)
  mirror t none = done t []
  mirror t (some datagram) = do
    send_all env (each λ m. record { socket = t.sockets m; to = t.socket_addr; bytes = datagram })
    done t []

module _ (rc5 : Rc5) (k : Constants) {S : Type 0} (source : Source k.size S) (env : Env) where
  unfoldable pub poll : ClientToServerSender S → ℕ → Outcome (ClientToServerSender S)
  poll t timestamp = do
    t' ← heartbeat env t timestamp
    let (sender, datagram) = poll_datagram rc5 k source t'.sender timestamp
    mirror env (record t' { sender = sender }) datagram
