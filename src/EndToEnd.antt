-- ===== src/EndToEnd.antt =====
-- A client's sending task (crates/longboy/src/client/client_to_server_sender.rs) and the server's
-- receiving task (crates/longboy/src/server/client_to_server_receiver.rs), with a network between
-- them that takes what the client sends and gives each of its sockets an address.
pub mod Network
pub mod Downstream
use longboy.Prelude.{
  ℕ, suc, ◌+◌, ◌-◌, ◌%◌, ◌^◌, ◌≤◌, ◌<◌, ◌≡◌, ◌≢◌, refl, sym, ◌∙◌, ap, subst, arith, true, Option,
  some, List, [], ◌∷◌, ◌++◌, length, foldl, map, replicate, length-replicate, leb,
}
use longboy.Proto.Constants.{Constants, IsValid}
use longboy.Proto.Cipher.{Rc5}
use longboy.Proto.Sender.{Source, Sender, poll_datagram}
use longboy.Proto.Sender.Refine.{Carries}
use longboy.Proto.Receiver.{Sink, Receiver, handle_datagram}
use longboy.Proto.Receiver.Slots.{give}
use longboy.Proto.Link.Frames.{AllShow}
use longboy.Proto.Link.Sends.{Sends, send, next_input}
use longboy.Proto.Link.Burst.{InSync, burst_recovered}
use longboy.Proto.Link.Mirrored.{copy_ignored, Sends-size}
use longboy.Effects.{Mirroring, SocketAddr, Packet, Env, done, all_taken}
use longboy.Client.ToServer
use longboy.Client.ToServer.{ClientToServerSender, each}
use longboy.Client.ToServer.Laws.{beats, copies, due, next_due, poll_lem}
use longboy.Server.{Factory, Arena}
use longboy.Server.FromClients
use longboy.Server.FromClients.{ReceiverSession, ClientToServerReceiver}
use longboy.Server.FromClients.Arrivals.{arrive, heartbeats_lead, copies_lead, thrice}

module _ (rc5 : Rc5) {k : Constants} (v : IsValid k) {S K : Type 0} (source : Source k.size S)
    (sink : Sink K) where
  -- The three copies of a burst's last datagram do what one does.
  pub mirrored_recovered :
      {s t : Sender S} {ins : List (Option (List ℕ))} {cycle timestamp : ℕ} {datagram : List ℕ}
      (r : Receiver K) (now : ℕ) (ps : List (Option (List ℕ))) (lead : List ℕ)
      → Carries rc5 k s ps lead
      → InSync rc5 k s r
      → Sends rc5 v source s ins t cycle timestamp datagram
      → 0 < length ins
      → length ins ≤ k.window_size
      → length ins ≤ 257
      → now < 2 ^ 16
      → timestamp < 2 ^ 16
      → (now + 2 ^ 16 - timestamp) % 2 ^ 16 ≤ 2048
      → AllShow rc5 s.cipher k.size ps
      → AllShow rc5 s.cipher k.size ins
      → let r' = thrice rc5 k sink r now datagram in
        InSync rc5 k t r' × (r'.sink ≡ foldl (give rc5 v sink) r.sink ins)
  mirrored_recovered {t = t} {ins = ins} {datagram = datagram} r now ps lead carries sync sends pos
        hw small hn ht late old new =
      let (sync', given) =
        burst_recovered rc5 v source sink r now ps lead carries sync sends pos hw small hn ht late
          old new in
      let once = (handle_datagram rc5 k sink r now datagram).0 in
      let same : (handle_datagram rc5 k sink once now datagram).0 ≡ once =
        copy_ignored rc5 v sink source once now ps lead carries old sends pos hw sync' in
      let all : thrice rc5 k sink r now datagram ≡ once =
        ap (λ q. (handle_datagram rc5 k sink q now datagram).0) same ∙ same in
      subst (λ q. InSync rc5 k t q × (q.sink ≡ foldl (give rc5 v sink) r.sink ins)) (sym all)
        (sync', given)

module _ (rc5 : Rc5) (k : Constants) {S : Type 0} (source : Source k.size S) (env : Env) where
  client_sends :
      {u : Sender S} {datagram : List ℕ} (client : ClientToServerSender S) (timestamp : ℕ)
      → ((p : Packet) → env.send_to p ≡ true)
      → timestamp + client.heartbeat_period < 2 ^ 16
      → client.next_heartbeat ≤ timestamp
      → poll_datagram rc5 k source client.sender timestamp ≡ (u, some datagram)
      → ToServer.poll rc5 k source env client timestamp
        ≡ done
            (record client { next_heartbeat = timestamp + client.heartbeat_period; sender = u })
            (beats client ++ copies client (some datagram))
  client_sends {u} {datagram} client timestamp takes clock due_now e =
      let now : leb client.next_heartbeat timestamp ≡ true = ground arith in
      let owed : due client timestamp ≡ beats client = rw now in
      let next : next_due client timestamp ≡ timestamp + client.heartbeat_period = rw now in
      let whole =
        poll_lem rc5 k source env client timestamp clock
          (rw owed (all_taken env takes (beats client)))
          (rw e (all_taken env takes (copies client (some datagram)))) in
      let e' = rw (e, owed, next) at whole in e'

module _ (rc5 : Rc5) {k : Constants} (v : IsValid k) {S K : Type 0} (source : Source k.size S)
    (sink : Sink K) (env : Env) (arena : Arena (ReceiverSession K)) {F : Type 0}
    (factory : Factory F K) where
  -- One poll of a client's sending task and one of the server's receiving task, from end to end.
  -- The client's last polls sent too, as many as ins is long, and all were lost; with this poll
  -- they are at most a window and at most 257. Before them the client's sender and the session's
  -- receiver agreed. Its heartbeat is due, its clock does not wrap, the network takes all packets
  -- and gives each socket an address, and no socket's address is held by another socket of the
  -- session; the server knows the session, and its poll reads exactly those packets, within 2048
  -- ms, no payload's ciphertext being all zeros. Then neither panics, the session's sink is
  -- handed each of those payloads exactly once, the newest first, although three copies arrive,
  -- and the two ends agree again.
  pub poll-poll :
      {s u : Sender S} {ins : List (Option (List ℕ))} {cycle before : ℕ} {old datagram : List ℕ}
      (client : ClientToServerSender S) (server : ClientToServerReceiver arena F) (index : ℕ)
      (session : ReceiverSession K) (addr : ℕ → SocketAddr) (timestamp now : ℕ)
      (ps : List (Option (List ℕ))) (lead : List ℕ)
      → Carries rc5 k s ps lead
      → InSync rc5 k s session.receiver
      → Sends rc5 v source s ins client.sender cycle before old
      → poll_datagram rc5 k source client.sender timestamp ≡ (u, some datagram)
      → suc (length ins) ≤ k.window_size
      → suc (length ins) ≤ 257
      → AllShow rc5 s.cipher k.size ps
      → AllShow rc5 s.cipher k.size (next_input rc5 v source client.sender ∷ ins)
      → ((p : Packet) → env.send_to p ≡ true)
      → timestamp + client.heartbeat_period < 2 ^ 16
      → client.next_heartbeat ≤ timestamp
      → now < 2 ^ 16
      → (now + 2 ^ 16 - timestamp) % 2 ^ 16 ≤ 2048
      → client.session_id < 2 ^ 64
      → server.session_id_to_session_map client.session_id ≡ some index
      → arena.get index server.sessions ≡ some session
      → ((m n : Mirroring) → m ≢ n → session.socket_addrs n ≢ some (addr (client.sockets m)))
      → (server' : ClientToServerReceiver arena F) × (session' : ReceiverSession K) × (ToServer.poll
            rc5 k source env client timestamp
          ≡ done
              (record client { next_heartbeat = timestamp + client.heartbeat_period; sender = u })
              (beats client ++ copies client (some datagram)))
        × (FromClients.poll arena rc5 k sink factory server now []
              (map (arrive addr) (beats client))
              (map (arrive addr) (copies client (some datagram)))
            ≡ some server')
        × (arena.get index server'.sessions ≡ some session')
        × InSync rc5 k u session'.receiver
        × (session'.receiver.sink
            ≡ foldl
                (give rc5 v sink)
                session.receiver.sink
                (next_input rc5 v source client.sender ∷ ins))
  unfolding FromClients.poll FromClients.poll_server_session_events
  poll-poll {s} {u} {ins} {datagram = datagram} client server index session addr timestamp now ps
        lead carries sync sends e hw small old new takes clock due_now hn late id known there
        apart =
      let sends' = send sends timestamp e in
      let size = Sends-size rc5 v sink source ps lead carries old sends' (omega arith) hw in
      let addrs : Mirroring → SocketAddr = λ m. addr (client.sockets m) in
      let (server1, e1, h1) =
        heartbeats_lead arena server client.session_id index session addrs (replicate 64 0) id known
          there apart (length-replicate {A = ℕ} 64 0) in
      let (server2, e2, h2) =
        copies_lead rc5 v sink arena server1 now index session.receiver addrs datagram
          (replicate 512 0) h1 size (length-replicate {A = ℕ} 512 0) in
      let (sync', given) =
        mirrored_recovered rc5 v source sink session.receiver now ps lead carries sync sends'
          (omega arith) hw small hn (omega arith) late old new in
      (
        server2,
        h2.session,
        client_sends rc5 k source env client timestamp takes clock due_now e,
        rw (FromClients.poll, e1, e2) refl,
        h2.there,
        rw h2.receiving sync',
        ap (λ r. r.sink) h2.receiving ∙ given,
      )
