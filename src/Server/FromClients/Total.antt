-- ===== src/Server/FromClients/Total.antt =====
-- Whole polls of the server's receiving task: they do not panic while sessions are registered once.
use Prim.Native.String.{String}
use longboy.Prelude.{
  ℕ, ◌≡◌, refl, sym, ◌∙◌, Bool, true, false, none, List, [], ◌∷◌, replicate, length-replicate, ◌==◌,
  if◌then◌else◌,
}
use longboy.Proto.Constants.{Constants, IsValid}
use longboy.Proto.Cipher.{Rc5}
use longboy.Proto.Receiver.{Sink}
use longboy.Proto.Receiver.Cycles.{new-InRange}
use longboy.Effects.{SocketAddr}
use longboy.Server.{ServerSessionEvent, connected, disconnected, Factory, Arena}
use longboy.Server.FromClients.{
  ReceiverSession, ClientToServerReceiver, new, connect, disconnect, handle_event,
  poll_server_session_events, poll,
}
use longboy.Server.Events.{Once, Holds, known_after, has-insert, has-remove, absent, there, Ends}
use longboy.Server.FromClients.Sound.{Sound, inserted}
use longboy.Server.FromClients.Ids.{addresses-HasIds, datagrams-HasIds}
use longboy.Server.FromClients.Polls.{disconnect_at-Sound, addresses-Sound, datagrams-Sound}

module _ {k : Constants} (v : IsValid k) {K : Type 0} (arena : Arena (ReceiverSession K))
    {F : Type 0} (factory : Factory F K) where
  -- A state is sound and holds the known sessions.
  abbrev pub Ready : (ℕ → Bool) → ClientToServerReceiver arena F → Type 0
  Ready known t = Sound k arena t × Holds known t.session_id_to_session_map

  connect-Ready :
      (known : ℕ → Bool) (t : ClientToServerReceiver arena F) (id key : ℕ)
      → Ready known t
      → known id ≡ false
      → Ends (Ready (λ n. if n == id then true else known n)) (connect arena k factory t id key)
  unfolding connect
  connect-Ready known t id key (sound, holds) fresh =
      let unknown : t.session_id_to_session_map id ≡ none = absent _ (holds id ∙ fresh) in
      rw (connect, unknown)
        (
          _,
          refl,
          (
            inserted k arena t _ id _ sound unknown
                (new-InRange v key (factory.invoke t.sink_factory id).0),
            has-insert known t.session_id_to_session_map id _ holds,
          ),
        )

  disconnect-Ready :
      (known : ℕ → Bool) (t : ClientToServerReceiver arena F) (id : ℕ)
      → Ready known t
      → known id ≡ true
      → Ends (Ready (λ n. if n == id then false else known n)) (disconnect arena t id)
  unfolding disconnect
  disconnect-Ready known t id (sound, holds) old =
      let (index, e) = there _ (holds id ∙ old) in
      let (t', q, (sound', gone)) = disconnect_at-Sound v arena t id index sound e in
      rw (disconnect, e)
        (t', q, (sound', rw gone (has-remove known t.session_id_to_session_map id holds)))

  -- What the server has registered is what its task knows of.
  events-Ready :
      (events : List ServerSessionEvent) (known : ℕ → Bool) (t : ClientToServerReceiver arena F)
      → Ready known t
      → Once known events
      → Ends
          (Ready (known_after known events))
          (poll_server_session_events arena k factory t events)
  unfolding poll_server_session_events handle_event
  events-Ready [] known t h once = (t, refl, h)
  events-Ready (connected id key ∷ events) known t h once =
      let (t', e, h') = connect-Ready known t id key h once.0 in
      rw (poll_server_session_events, handle_event, e) (events-Ready events _ t' h' once.1)
  events-Ready (disconnected id ∷ events) known t h once =
      let (t', e, h') = disconnect-Ready known t id h once.0 in
      rw (poll_server_session_events, handle_event, e) (events-Ready events _ t' h' once.1)

  pub poll-Ready :
      (rc5 : Rc5) (sink : Sink K) (known : ℕ → Bool) (t : ClientToServerReceiver arena F)
      (timestamp : ℕ) (events : List ServerSessionEvent)
      (mappings datagrams : List (List ℕ × SocketAddr))
      → Ready known t
      → Once known events
      → Ends
          (Ready (known_after known events))
          (poll arena rc5 k sink factory t timestamp events mappings datagrams)
  unfolding poll
  poll-Ready rc5 sink known t timestamp events mappings datagrams h once =
      let (t1, e1, h1) = events-Ready events known t h once in
      let (t2, e2, h2) = addresses-Sound v arena t1 mappings (replicate 64 0) h1.0 in
      let (t3, e3, h3) =
        datagrams-Sound v arena rc5 sink t2 timestamp datagrams (replicate 512 0) h2
          (length-replicate {A = ℕ} 512 0) in
      let ids = addresses-HasIds arena t1 mappings (replicate 64 0) in
      let ids' = datagrams-HasIds arena rc5 k sink t2 timestamp datagrams (replicate 512 0) in
      let same : t2.session_id_to_session_map ≡ t1.session_id_to_session_map =
        (let q = rw e2 at ids in q) in
      let same' : t3.session_id_to_session_map ≡ t2.session_id_to_session_map =
        (let q = rw e3 at ids' in q) in
      rw (poll, e1, e2, e3) (t3, refl, (h3, rw (same' ∙ same) h1.1))

  -- A new receiving task of a server, on sockets that can be made non-blocking, is sound and
  -- holds no session.
  pub new-Ready :
      (nonblocking : ℕ → Bool) (name : String) (mapper_socket socket : ℕ) (sink_factory : F)
      → nonblocking mapper_socket ≡ true
      → nonblocking socket ≡ true
      → Ends (Ready (λ id. false)) (new arena nonblocking name mapper_socket socket sink_factory)
  unfolding new
  new-Ready nonblocking name mapper_socket socket sink_factory a b =
      rw (new, a, b)
        (
          _,
          refl,
          (
            record {
              indexed = record {
                found = λ id i e. absurd (cc e);
                distinct = λ a b i e e'. absurd (cc e);
              };
              addrs = λ a i e. absurd (cc e);
              receivers = λ i s e. absurd (cc (sym (arena.get-empty i) ∙ e));
            },
            λ id. refl,
          ),
        )
