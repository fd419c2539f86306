-- ===== src/Server/FromClients/Arrivals.antt =====
-- A client's three heartbeats and three copies of a datagram, as the server's receiving task reads
-- them.
use longboy.Prelude.{
  ℕ, ◌<◌, ◌^◌, ◌≡◌, ◌≢◌, refl, sym, ◌∙◌, ap, Option, none, some, List, [], ◌∷◌, length, map,
  ==_self, ==_ne, ℕ_discrete,
}
use longboy.Prelude.Slices.{write, length-write}
use longboy.Proto.Constants.{Constants, IsValid, datagram_size}
use longboy.Proto.Cipher.{Rc5}
use longboy.Proto.Receiver.{Sink, Receiver, handle_datagram}
use longboy.Effects.{Mirroring, audio_video, background, voice, SocketAddr, Packet}
use longboy.Client.ToServer.{each, heartbeat_bytes}
use longboy.Server.{Arena}
use longboy.Server.Maps.{Map, insert, forget, assign}
use longboy.Server.FromClients.{
  ReceiverSession, ClientToServerReceiver, poll_for_client_socket_addresses,
  poll_for_client_datagrams,
}
use longboy.Server.FromClients.Delivery.{mapped, mapping_step, handled, delivered, datagram_step}

-- A packet as it arrives: `source` is the address that the network gives to a socket.
abbrev pub arrive : (ℕ → SocketAddr) → Packet → List ℕ × SocketAddr
arrive source p = (p.bytes, source p.socket)

insert-keeps :
    (a key index : ℕ) (map : Map) → map a ≡ some index → insert key index map a ≡ some index
insert-keeps a key index map e = elim (ℕ_discrete a key) [
  | yes same ↦ rw (same, ==_self key)
  | no other ↦ rw (==_ne a key other) e
]

insert-here : (key index : ℕ) (map : Map) → insert key index map key ≡ some index
insert-here key index map = rw (==_self key)

forget-keeps :
    (a index : ℕ) (map : Map) (o : Option ℕ)
    → o ≢ some a
    → map a ≡ some index
    → forget map o a ≡ some index
forget-keeps a index map none h e = e
forget-keeps a index map (some key) h e = rw (==_ne a key (λ q. h (ap some (sym q)))) e

-- An address stays mapped when another one of its session is.
remapped :
    (a key index : ℕ) (map : Map) (o : Option ℕ)
    → o ≢ some a
    → map a ≡ some index
    → insert key index (forget map o) a ≡ some index
remapped a key index map o h e =
    insert-keeps a key index (forget map o) (forget-keeps a index map o h e)

-- The task holds a session at `index` with this receiver, and the addresses lead to it.
pub record Leads {K : Type 0} (arena : Arena (ReceiverSession K)) {F : Type 0}
    (t : ClientToServerReceiver arena F) (index : ℕ) (receiver : Receiver K)
    (addrs : Mirroring → SocketAddr) : Type 0 where
  pub session : ReceiverSession K
  pub there : arena.get index t.sessions ≡ some session
  pub receiving : session.receiver ≡ receiver
  pub led : (m : Mirroring) → t.socket_addr_to_session_map (addrs m) ≡ some index

-- Behind the three heartbeats all three addresses are mapped, when no socket of the session had an
-- address of another one.
led_by :
    (index : ℕ) (addrs : Mirroring → SocketAddr) (map : Map) (old : Mirroring → Option ℕ)
    → ((m n : Mirroring) → m ≢ n → old n ≢ some (addrs m))
    → (m : Mirroring)
    → insert
        (addrs voice)
        index
        (forget
          (insert (addrs background) index (
            forget
              (insert (addrs audio_video) index (forget map (old audio_video)))
              (old background)))
          (old voice))
        (addrs m)
      ≡ some index
led_by index addrs map old apart audio_video =
    remapped (addrs audio_video) (addrs voice) index _ (old voice)
      (apart audio_video voice (λ e. cc e))
      (remapped (addrs audio_video) (addrs background) index _ (old background)
        (apart audio_video background (λ e. cc e))
        (insert-here (addrs audio_video) index (forget map (old audio_video))))
led_by index addrs map old apart background =
    remapped (addrs background) (addrs voice) index _ (old voice)
      (apart background voice (λ e. cc e))
      (insert-here (addrs background) index
        (forget (insert (addrs audio_video) index (forget map (old audio_video))) (old background)))
led_by index addrs map old apart voice = insert-here (addrs voice) index (
    forget
      (insert (addrs background) index
        (forget (insert (addrs audio_video) index (forget map (old audio_video))) (old background)))
      (old voice))

module _ {K : Type 0} (arena : Arena (ReceiverSession K)) {F : Type 0} where
  pub heartbeats_lead :
      (t : ClientToServerReceiver arena F) (id index : ℕ) (s : ReceiverSession K)
      (addrs : Mirroring → SocketAddr) (buffer : List ℕ)
      → id < 2 ^ 64
      → t.session_id_to_session_map id ≡ some index
      → arena.get index t.sessions ≡ some s
      → ((m n : Mirroring) → m ≢ n → s.socket_addrs n ≢ some (addrs m))
      → length buffer ≡ 64
      → (t' : ClientToServerReceiver arena F) × (poll_for_client_socket_addresses arena t
            (each (λ m. (heartbeat_bytes id m, addrs m)))
            buffer
          ≡ some t')
        × Leads arena t' index s.receiver addrs
  unfolding poll_for_client_socket_addresses
  heartbeats_lead t id index s addrs buffer small known there apart size =
      let s1 = record s {
        socket_addrs = assign s.socket_addrs audio_video (some (addrs audio_video));
      } in
      let s2 = record s1 {
        socket_addrs = assign s1.socket_addrs background (some (addrs background));
      } in
      let s3 = record s2 { socket_addrs = assign s2.socket_addrs voice (some (addrs voice)) } in
      let t1 = mapped arena t index s audio_video (addrs audio_video) in
      let t2 = mapped arena t1 index s1 background (addrs background) in
      let t3 = mapped arena t2 index s2 voice (addrs voice) in
      let there1 = arena.get-update_self index s s1 t.sessions there in
      let there2 = arena.get-update_self index s1 s2 t1.sessions there1 in
      let there3 = arena.get-update_self index s2 s3 t2.sessions there2 in
      let b1 = write buffer 0 (heartbeat_bytes id audio_video) in
      let b2 = write b1 0 (heartbeat_bytes id background) in
      let size1 = length-write buffer 0 (heartbeat_bytes id audio_video) ∙ size in
      let size2 = length-write b1 0 (heartbeat_bytes id background) ∙ size1 in
      (
        t3,
        mapping_step arena t id index s audio_video (addrs audio_video)
              ((heartbeat_bytes id background, addrs background)
                ∷ (heartbeat_bytes id voice, addrs voice)
                ∷ [])
              buffer small known there size
            ∙ mapping_step arena t1 id index s1 background (addrs background)
                ((heartbeat_bytes id voice, addrs voice) ∷ []) b1 small known there1 size1
            ∙ mapping_step arena t2 id index s2 voice (addrs voice) [] b2 small known there2 size2,
        record {
          session = s3;
          there = there3;
          receiving = refl;
          led = led_by index addrs t.socket_addr_to_session_map s.socket_addrs apart;
        },
      )

module _ (rc5 : Rc5) (k : Constants) {K : Type 0} (sink : Sink K) where
  abbrev pub thrice : Receiver K → ℕ → List ℕ → Receiver K
  thrice r timestamp bytes =
      let step : Receiver K → Receiver K = λ q. (handle_datagram rc5 k sink q timestamp bytes).0 in
      step (step (step r))

module _ (rc5 : Rc5) {k : Constants} (v : IsValid k) {K : Type 0} (sink : Sink K)
    (arena : Arena (ReceiverSession K)) {F : Type 0} where
  -- One copy.
  copy_step :
      (t : ClientToServerReceiver arena F) (timestamp index : ℕ) (r : Receiver K)
      (addrs : Mirroring → SocketAddr) (bytes : List ℕ) (m : Mirroring)
      (rest : List (List ℕ × SocketAddr)) (buffer : List ℕ)
      → Leads arena t index r addrs
      → length bytes ≡ datagram_size k
      → length buffer ≡ 512
      → (t' : ClientToServerReceiver arena F) × (b : List ℕ) × (length b ≡ 512)
        × (poll_for_client_datagrams arena rc5 k sink t timestamp ((bytes, addrs m) ∷ rest) buffer
            ≡ poll_for_client_datagrams arena rc5 k sink t' timestamp rest b)
        × Leads arena t' index (handle_datagram rc5 k sink r timestamp bytes).0 addrs
  copy_step t timestamp index r addrs bytes m rest buffer h size e =
      let (b, e', step) =
        datagram_step rc5 v sink arena t timestamp index h.session bytes (addrs m) rest buffer
          (h.led m) h.there size e in
      (
        delivered rc5 v sink arena t index (handled rc5 k sink h.session timestamp bytes),
        b,
        e',
        step,
        record {
          session = handled rc5 k sink h.session timestamp bytes;
          there = arena.get-update_self index h.session _ t.sessions h.there;
          receiving = ap (λ q. (handle_datagram rc5 k sink q timestamp bytes).0) h.receiving;
          led = h.led;
        },
      )

  pub copies_lead :
      (t : ClientToServerReceiver arena F) (timestamp index : ℕ) (r : Receiver K)
      (addrs : Mirroring → SocketAddr) (bytes buffer : List ℕ)
      → Leads arena t index r addrs
      → length bytes ≡ datagram_size k
      → length buffer ≡ 512
      → (t' : ClientToServerReceiver arena F) × (poll_for_client_datagrams arena rc5 k sink t
            timestamp
            (each (λ m. (bytes, addrs m)))
            buffer
          ≡ some t')
        × Leads arena t' index (thrice rc5 k sink r timestamp bytes) addrs
  unfolding poll_for_client_datagrams
  copies_lead t timestamp index r addrs bytes buffer h size e =
      let (t1, b1, e1, step1, h1) =
        copy_step t timestamp index r addrs bytes audio_video
          ((bytes, addrs background) ∷ (bytes, addrs voice) ∷ []) buffer h size e in
      let (t2, b2, e2, step2, h2) =
        copy_step t1 timestamp index _ addrs bytes background ((bytes, addrs voice) ∷ []) b1 h1 size
          e1 in
      let (t3, b3, e3, step3, h3) =
        copy_step t2 timestamp index _ addrs bytes voice [] b2 h2 size e2 in
      (t3, step1 ∙ step2 ∙ step3, h3)
