-- ===== src/EndToEnd/Downstream.antt =====
-- The server's sending task (crates/longboy/src/server/server_to_client_sender.rs) and a client's
-- receiving task (crates/longboy/src/client/server_to_client_receiver.rs), with a network between
-- them that takes what they send and brings a client what is sent to its address.
use longboy.Prelude.{
  ℕ, suc, ◌+◌, ◌-◌, ◌%◌, ◌^◌, ◌≤◌, ◌<◌, ◌≡◌, refl, sym, ◌∙◌, ap, subst, arith, Bool, true, Option,
  some, Bool-cases, inl, inr, List, [], ◌∷◌, ◌++◌, length, foldl, replicate, length-replicate, leb,
  ==_of,
}
use longboy.Prelude.Slices.{slice, write}
use longboy.Prelude.Bytes.{to_le_bytes, from_le_bytes}
use longboy.Proto.Constants.{Constants, IsValid, datagram_size}
use longboy.Proto.Cipher.{Rc5}
use longboy.Proto.Sender.{Source, Sender, poll_datagram}
use longboy.Proto.Sender.Refine.{Carries}
use longboy.Proto.Receiver.{Sink, Receiver}
use longboy.Proto.Receiver.Slots.{give}
use longboy.Proto.Link.Frames.{AllShow}
use longboy.Proto.Link.Sends.{Sends, send, next_input}
use longboy.Proto.Link.Burst.{InSync}
use longboy.Proto.Link.Mirrored.{Sends-size}
use longboy.Effects.{SocketAddr, Packet, Env, done, after, ◌>>=◌, send_to, add_u16_lem}
use longboy.Client.FromServer
use longboy.Client.FromServer.{ServerToClientReceiver, heartbeat, process_datagrams}
use longboy.Client.FromServer.Laws.{process_datagrams-handle_all}
use longboy.Server.{Factory, Arena, Iter}
use longboy.Server.ToClients
use longboy.Server.ToClients.{SenderSession, ServerToClientSender}
use longboy.Server.ToClients.Sound.{Sound, Ready, addresses-Ready}
use longboy.Server.ToClients.Rounds.{owed_all, poll_sessions_lem}
use longboy.Server.FromClients.Arrivals.{thrice}
use longboy.EndToEnd.{mirrored_recovered}
use longboy.EndToEnd.Network.{received, Alone, received-owed_all}

module _ {K : Type 0} where
  -- A heartbeat of the client's receiving task.
  abbrev pub beat : ServerToClientReceiver K → Packet
  beat t = record {
    socket = t.socket;
    to = t.mapper_socket_addr;
    bytes = write (replicate 8 0) 0 (to_le_bytes 8 t.session_id);
  }

  beat_decode :
      (t : ServerToClientReceiver K)
      → t.session_id < 2 ^ 64
      → (length (beat t).bytes ≡ 8)
        × (from_le_bytes (slice (write (replicate 64 0) 0 (beat t).bytes) 0 8) ≡ t.session_id)
  unfolding to_le_bytes from_le_bytes
  beat_decode t h = (refl, omega arith)

  module _ (env : Env) (takes : (p : Packet) → env.send_to p ≡ true) (t : ServerToClientReceiver K)
      (timestamp : ℕ) (clock : timestamp + t.heartbeat_period < 2 ^ 16) where
    heartbeat-due :
        t.next_heartbeat ≤ timestamp
        → heartbeat env t timestamp
          ≡ done (record t { next_heartbeat = timestamp + t.heartbeat_period }) (beat t ∷ [])
    unfolding heartbeat send_to
    heartbeat-due now =
        let due : leb t.next_heartbeat timestamp ≡ true = ground arith in
        rw (heartbeat, due, takes (beat t), add_u16_lem env timestamp t.heartbeat_period clock) refl

    heartbeat_any :
        (next : ℕ) × (more : List Packet) × (heartbeat env t timestamp
          ≡ done (record t { next_heartbeat = next }) more)
    unfolding heartbeat
    heartbeat_any = elim (Bool-cases (leb t.next_heartbeat timestamp)) [
      | inl now ↦ (_, _, heartbeat-due (ground arith))
      | inr later ↦ (t.next_heartbeat, [], rw later refl)
    ]

module _ (rc5 : Rc5) {k : Constants} (v : IsValid k) {K : Type 0} (sink : Sink K) where
  -- Three copies in the client's receive loop.
  process_datagrams-thrice :
      (now : ℕ) (datagram : List ℕ) (r : Receiver K)
      → length datagram ≡ datagram_size k
      → process_datagrams rc5 k sink now (datagram ∷ datagram ∷ datagram ∷ []) (replicate 512 0) r
        ≡ thrice rc5 k sink r now datagram
  process_datagrams-thrice now datagram r size =
      process_datagrams-handle_all rc5 v sink now (datagram ∷ datagram ∷ datagram ∷ [])
        (replicate 512 0) r (length-replicate {A = ℕ} 512 0)
      ∙ rw (==_of (length datagram) (datagram_size k) size) refl

module _ {S : Type 0} (arena : Arena (SenderSession S)) {F : Type 0} where
  -- The server hears the heartbeat.
  abbrev pub mapped_to :
      ServerToClientSender arena F → ℕ → SenderSession S → SocketAddr → ServerToClientSender arena F
  mapped_to t index session addr = record t {
    sessions = arena.update index (record session { socket_addr = some addr }) t.sessions;
  }

  beat_heard :
      {K : Type 0} (client : ServerToClientReceiver K) (t : ServerToClientSender arena F)
      (index : ℕ) (session : SenderSession S) (addr : SocketAddr)
      → client.session_id < 2 ^ 64
      → t.session_id_to_session_map client.session_id ≡ some index
      → arena.get index t.sessions ≡ some session
      → ToClients.poll_for_client_socket_addresses arena t
          (((beat client).bytes, addr) ∷ [])
          (replicate 64 0)
        ≡ done (mapped_to t index session addr) []
  unfolding ToClients.poll_for_client_socket_addresses ToClients.read_mapping ToClients.map_address
      to_le_bytes
  beat_heard client t index session addr small known there =
      let (_, id) = beat_decode client small in
      let id_known : t.session_id_to_session_map
            (from_le_bytes (slice (write (replicate 64 0) 0 (beat client).bytes) 0 8))
          ≡ some index =
        rw id known in
      rw
        (
          ToClients.poll_for_client_socket_addresses, ToClients.read_mapping, id_known,
          ToClients.map_address, there,
        )
        refl

module _ (rc5 : Rc5) {k : Constants} (v : IsValid k) {S K : Type 0} (source : Source k.size S)
    (sink : Sink K) (env : Env) (arena : Arena (SenderSession S)) (iter : Iter arena) {F : Type 0}
    (factory : Factory F S) where
  -- What the two polls of the client and the one of the server between them come to.
  pub record Exchange (client : ServerToClientReceiver K) (server : ServerToClientSender arena F)
      (index : ℕ) (addr : SocketAddr) (heard timestamp now : ℕ) (u : Sender S)
      (ins : List (Option (List ℕ))) : Type 0 where
    pub client1 : ServerToClientReceiver K
    pub first : FromServer.poll rc5 k sink env client heard [] ≡ done client1 (beat client ∷ [])
    pub server' : ServerToClientSender arena F
    pub packets : List Packet
    pub between :
        ToClients.poll arena rc5 k source env iter factory server timestamp []
          (((beat client).bytes, addr) ∷ [])
        ≡ done server' packets
    pub polled :
        arena.get index server'.sessions ≡ some (record { socket_addr = some addr; sender = u })
    pub client2 : ServerToClientReceiver K
    pub more : List Packet
    pub second :
        FromServer.poll rc5 k sink env client1 now (received addr packets) ≡ done client2 more
    pub sync : InSync rc5 k u client2.receiver
    pub given : client2.receiver.sink ≡ foldl (give rc5 v sink) client.receiver.sink ins

  -- From a server to a client, end to end: a poll of the client's receiving task whose heartbeat
  -- is due, a poll of the server's sending task that reads exactly that heartbeat, with no
  -- session event, and a poll of the client that reads what the server sent to its address,
  -- within 2048 ms. The last polls of the session's sender sent too, as many as ins is long, and
  -- were lost; with this one they are at most a window and at most 257; before them the sender
  -- and the client's receiver agreed. The server's task is sound and knows the session, no other
  -- session is at the address, the network takes all packets, no clock wraps and no payload's
  -- ciphertext is all zeros. Then no poll panics, the client sends its one heartbeat, the server
  -- has the session's address and its sender behind the poll, the client's sink is handed each of
  -- those payloads exactly once, the newest first, although three copies arrive, and the two ends
  -- agree again.
  pub poll-poll-poll :
      {s u : Sender S} {ins : List (Option (List ℕ))} {cycle before : ℕ} {old datagram : List ℕ}
      (client : ServerToClientReceiver K) (server : ServerToClientSender arena F) (known : ℕ → Bool)
      (index : ℕ) (session : SenderSession S) (addr : SocketAddr) (heard timestamp now : ℕ)
      (ps : List (Option (List ℕ))) (lead : List ℕ)
      → Carries rc5 k s ps lead
      → InSync rc5 k s client.receiver
      → Sends rc5 v source s ins session.sender cycle before old
      → poll_datagram rc5 k source session.sender timestamp ≡ (u, some datagram)
      → suc (length ins) ≤ k.window_size
      → suc (length ins) ≤ 257
      → AllShow rc5 s.cipher k.size ps
      → AllShow rc5 s.cipher k.size (next_input rc5 v source session.sender ∷ ins)
      → ((p : Packet) → env.send_to p ≡ true)
      → client.next_heartbeat ≤ heard
      → heard + client.heartbeat_period < 2 ^ 16
      → now + client.heartbeat_period < 2 ^ 16
      → timestamp < 2 ^ 16
      → (now + 2 ^ 16 - timestamp) % 2 ^ 16 ≤ 2048
      → client.session_id < 2 ^ 64
      → Ready rc5 v arena known server
      → server.session_id_to_session_map client.session_id ≡ some index
      → arena.get index server.sessions ≡ some session
      → Alone rc5 k source arena addr index server.sessions
      → Exchange client server index addr heard timestamp now u
          (next_input rc5 v source session.sender ∷ ins)
  unfolding FromServer.poll ToClients.poll ToClients.poll_server_session_events process_datagrams
  poll-poll-poll {s} {u} {ins} {datagram = datagram} client server known index session addr heard
        timestamp now ps lead carries sync sends e hw small old new takes due clock clock' ht late
        id ready maps there alone =
      let sends' = send sends timestamp e in
      let size = Sends-size rc5 v sink source ps lead carries old sends' (omega arith) hw in
      let (sync', given) =
        mirrored_recovered rc5 v source sink client.receiver now ps lead carries sync sends'
          (omega arith) hw small (omega arith) ht late old new in
      let server1 = mapped_to arena server index session addr in
      let at_addr : SenderSession S = record session { socket_addr = some addr } in
      let here = arena.get-update_self index session at_addr server.sessions there in
      let heard_it = beat_heard arena client server index session addr id maps there in
      let (server2, e2, ready2) =
        addresses-Ready rc5 v arena (((beat client).bytes, addr) ∷ []) (replicate 64 0) known server
          ready in
      let same : server2 ≡ server1 = cc (sym e2 ∙ heard_it) in
      let sound = subst (Sound rc5 v arena) same ready2.0 in
      let (server3, e3, _, _, sessions) =
        poll_sessions_lem rc5 v source env takes arena iter server1 timestamp sound in
      let packets =
        owed_all rc5 k source arena timestamp server1.sockets server1.sessions
          (iter.indices server1.sessions) in
      let alone1 : Alone rc5 k source arena addr index server1.sessions = λ i other ne there'.
        alone i other ne
          (sym (arena.get-update_ne index i at_addr server.sessions (λ q. ne (sym q))) ∙ there') in
      let brought : received addr packets ≡ datagram ∷ datagram ∷ datagram ∷ [] =
        received-owed_all rc5 k source arena timestamp server1.sockets server1.sessions addr index
          alone1 at_addr datagram (iter.indices server1.sessions) here refl (ap (λ w. w.1) e)
          (iter.once server1.sessions)
        ∙ rw (iter.live index at_addr server1.sessions here) refl in
      let client1 : ServerToClientReceiver K = record client {
        next_heartbeat = heard + client.heartbeat_period;
      } in
      let (next, more, again) = heartbeat_any env takes client1 now clock' in
      let taken = process_datagrams-thrice rc5 v sink now datagram client.receiver size in
      record {
        client1 = client1;
        first = rw (FromServer.poll, heartbeat-due env takes client heard clock due) refl;
        server' = server3;
        packets = packets;
        between =
            ap
              (λ o.
                after []
                  (o >>= λ t. ToClients.poll_sessions arena rc5 k source env iter t timestamp))
              heard_it
            ∙ ap (λ o. after [] (after [] o)) e3;
        polled = sessions index ∙ rw (here, e) refl;
        client2 = record client1 {
          next_heartbeat = next;
          receiver = thrice rc5 k sink client.receiver now datagram;
        };
        more = more ++ [];
        second = rw (FromServer.poll, again, brought, taken) refl;
        sync = sync';
        given = given;
      }
