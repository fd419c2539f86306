-- ===== src/Server/FromClients/Delivery.antt =====
-- What a heartbeat and a datagram of a known session do to the server's receiving task.
use longboy.Prelude.{
  ℕ, ◌<◌, ◌^◌, ◌≡◌, refl, ◌∙◌, ap, arith, false, some, List, ◌∷◌, length, min, get_or, leb, ==_self,
}
use longboy.Prelude.Slices.{slice, write, length-write}
use longboy.Prelude.Bytes.{from_le_bytes, to_le_bytes}
use longboy.Proto.Constants.{Constants, IsValid, datagram_size}
use longboy.Proto.Cipher.{Rc5}
use longboy.Proto.Receiver.{Sink, handle_datagram}
use longboy.Effects.{Mirroring, audio_video, background, voice, into_usize, SocketAddr}
use longboy.Client.ToServer.{heartbeat_bytes}
use longboy.Client.ToServer.Laws.{heartbeat_bytes_decode}
use longboy.Client.FromServer.Laws.{right_size}
use longboy.Server.{Arena}
use longboy.Server.Maps.{insert, forget, assign}
use longboy.Server.FromClients.{
  ReceiverSession, ClientToServerReceiver, from_usize, map_address, read_mapping,
  poll_for_client_socket_addresses, deliver, read_datagram, poll_for_client_datagrams,
}

from_usize-into_usize : (m : Mirroring) → from_usize (into_usize m) ≡ m
unfolding into_usize
from_usize-into_usize audio_video = refl
from_usize-into_usize background = refl
from_usize-into_usize voice = refl

leb-into_usize : (m : Mirroring) → leb 3 (into_usize m) ≡ false
unfolding into_usize
leb-into_usize audio_video = refl
leb-into_usize background = refl
leb-into_usize voice = refl

heartbeat_front :
    (id : ℕ) (m : Mirroring) (buffer : List ℕ)
    → length buffer ≡ 64
    → (slice (write buffer 0 (heartbeat_bytes id m)) 0 8 ≡ slice (heartbeat_bytes id m) 0 8)
      × (get_or (write buffer 0 (heartbeat_bytes id m)) 8 0 ≡ get_or (heartbeat_bytes id m) 8 0)
unfolding heartbeat_bytes to_le_bytes
heartbeat_front id m (a ∷ b ∷ c ∷ d ∷ e ∷ f ∷ g ∷ h ∷ i ∷ rest) size = (refl, refl)
heartbeat_front id m buffer size = absurd (omega arith)

module _ {K : Type 0} (arena : Arena (ReceiverSession K)) {F : Type 0} where
  -- The task behind a mapping.
  abbrev pub mapped :
      ClientToServerReceiver arena F
      → ℕ
      → ReceiverSession K
      → Mirroring
      → SocketAddr
      → ClientToServerReceiver arena F
  mapped t index s m addr = record t {
    sessions =
        arena.update index (record s { socket_addrs = assign s.socket_addrs m (some addr) })
          t.sessions;
    socket_addr_to_session_map =
        insert addr index (forget t.socket_addr_to_session_map (s.socket_addrs m));
  }

  read_known :
      (t : ClientToServerReceiver arena F) (id index : ℕ) (buffer : List ℕ) (addr : SocketAddr)
      → from_le_bytes (slice buffer 0 8) ≡ id
      → leb 3 (get_or buffer 8 0) ≡ false
      → t.session_id_to_session_map id ≡ some index
      → read_mapping arena t 9 buffer addr
        ≡ map_address arena t index (from_usize (get_or buffer 8 0)) addr
  unfolding read_mapping
  read_known t id index buffer addr session socket known = rw (read_mapping, session, socket, known)

  map_known :
      (t : ClientToServerReceiver arena F) (index : ℕ) (s : ReceiverSession K) (m : Mirroring)
      (addr : SocketAddr)
      → arena.get index t.sessions ≡ some s
      → map_address arena t index m addr ≡ some (mapped t index s m addr)
  unfolding map_address
  map_known t index s m addr there = rw (map_address, there)

  pub mapping_step :
      (t : ClientToServerReceiver arena F) (id index : ℕ) (s : ReceiverSession K) (m : Mirroring)
      (addr : SocketAddr) (rest : List (List ℕ × SocketAddr)) (buffer : List ℕ)
      → id < 2 ^ 64
      → t.session_id_to_session_map id ≡ some index
      → arena.get index t.sessions ≡ some s
      → length buffer ≡ 64
      → poll_for_client_socket_addresses arena t ((heartbeat_bytes id m, addr) ∷ rest) buffer
        ≡ poll_for_client_socket_addresses arena
            (mapped t index s m addr)
            rest
            (write buffer 0 (heartbeat_bytes id m))
  unfolding poll_for_client_socket_addresses
  mapping_step t id index s m addr rest buffer small known there size =
      let (nine, session, socket) = heartbeat_bytes_decode id m small in
      let (front, ninth) = heartbeat_front id m buffer size in
      let received = write buffer 0 (heartbeat_bytes id m) in
      let len : min (length (heartbeat_bytes id m)) (length buffer) ≡ 9 = omega arith in
      let number : get_or received 8 0 ≡ into_usize m = ninth ∙ socket in
      let reads : read_mapping arena t 9 received addr ≡ some (mapped t index s m addr) =
        read_known t id index received addr (ap from_le_bytes front ∙ session)
          (rw number (leb-into_usize m)) known
        ∙ ap (λ n. map_address arena t index (from_usize n) addr) number
        ∙ ap (λ l. map_address arena t index l addr) (from_usize-into_usize m)
        ∙ map_known t index s m addr there in
      rw (poll_for_client_socket_addresses, len, reads)

module _ (rc5 : Rc5) (k : Constants) {K : Type 0} (sink : Sink K) where
  -- The session behind a datagram.
  abbrev pub handled : ReceiverSession K → ℕ → List ℕ → ReceiverSession K
  handled s timestamp bytes = record s {
    receiver = (handle_datagram rc5 k sink s.receiver timestamp bytes).0;
  }

module _ (rc5 : Rc5) {k : Constants} (v : IsValid k) {K : Type 0} (sink : Sink K)
    (arena : Arena (ReceiverSession K)) {F : Type 0} where
  abbrev pub delivered :
      ClientToServerReceiver arena F → ℕ → ReceiverSession K → ClientToServerReceiver arena F
  delivered t index s = record t { sessions = arena.update index s t.sessions }

  deliver_there :
      (t : ClientToServerReceiver arena F) (timestamp index : ℕ) (s : ReceiverSession K)
      (bytes : List ℕ)
      → arena.get index t.sessions ≡ some s
      → deliver arena rc5 k sink t timestamp index bytes
        ≡ some (
          delivered t index (handled rc5 k sink s timestamp bytes),
          (handle_datagram rc5 k sink s.receiver timestamp bytes).1,
        )
  unfolding deliver
  deliver_there t timestamp index s bytes there = rw (deliver, there)

  read_right :
      (t : ClientToServerReceiver arena F) (timestamp index : ℕ) (buffer : List ℕ)
      (addr : SocketAddr)
      → t.socket_addr_to_session_map addr ≡ some index
      → read_datagram arena rc5 k sink t timestamp (datagram_size k) buffer addr
        ≡ deliver arena rc5 k sink t timestamp index (slice buffer 0 (datagram_size k))
  unfolding read_datagram
  read_right t timestamp index buffer addr known =
      rw (read_datagram, ==_self (datagram_size k), known)

  pub datagram_step :
      (t : ClientToServerReceiver arena F) (timestamp index : ℕ) (s : ReceiverSession K)
      (bytes : List ℕ) (addr : SocketAddr) (rest : List (List ℕ × SocketAddr)) (buffer : List ℕ)
      → t.socket_addr_to_session_map addr ≡ some index
      → arena.get index t.sessions ≡ some s
      → length bytes ≡ datagram_size k
      → length buffer ≡ 512
      → (b : List ℕ) × (length b ≡ 512)
        × (poll_for_client_datagrams arena rc5 k sink t timestamp ((bytes, addr) ∷ rest) buffer
            ≡ poll_for_client_datagrams arena rc5 k sink
                (delivered t index (handled rc5 k sink s timestamp bytes))
                timestamp
                rest
                b)
  unfolding poll_for_client_datagrams
  datagram_step t timestamp index s bytes addr rest buffer known there size e =
      let (len, read) = right_size rc5 v sink bytes buffer e size in
      let after = (handle_datagram rc5 k sink s.receiver timestamp bytes).1 in
      let step : read_datagram arena rc5 k sink t timestamp (datagram_size k) (write buffer 0 bytes)
            addr
          ≡ some (delivered t index (handled rc5 k sink s timestamp bytes), after) =
        read_right t timestamp index (write buffer 0 bytes) addr known
        ∙ ap (deliver arena rc5 k sink t timestamp index) read
        ∙ deliver_there t timestamp index s bytes there in
      (
        write (write buffer 0 bytes) 0 after,
        length-write (write buffer 0 bytes) 0 after ∙ length-write buffer 0 bytes ∙ e,
        rw (poll_for_client_datagrams, len, step),
      )
