-- ===== src/Server/ToClients/Sound.antt =====
-- The sending task's look-ups hold, and its senders carry rings, whatever arrives.
use Prim.Native.String.{String}
use longboy.Prelude.{
  ℕ, ◌≡◌, refl, sym, ◌∙◌, Bool, true, false, Option, none, some, inl, inr, List, [], ◌∷◌, length,
  min, Option-cases, Bool-cases, ◌==◌, if◌then◌else◌,
}
use longboy.Prelude.Slices.{slice, write}
use longboy.Prelude.Bytes.{from_le_bytes}
use longboy.Proto.Constants.{Constants, IsValid}
use longboy.Proto.Cipher.{Rc5}
use longboy.Proto.Sender.Refine.{Carries, new-Carries}
use longboy.Effects.{Mirroring, audio_video, background, voice, SocketAddr, Outcome, done}
use longboy.Server.{ServerSessionEvent, connected, disconnected, Factory, Arena}
use longboy.Server.Sessions.{
  Indexed, Each, Indexed-insert, Each-insert, Indexed-update, Each-update, Indexed-remove,
  Each-remove,
}
use longboy.Server.Events.{Once, Holds, has-insert, has-remove, absent, there, Ends, known_after}
use longboy.Server.ToClients.{
  SenderSession, ServerToClientSender, new, connect, disconnect, handle_event,
  poll_server_session_events, map_address, read_mapping, poll_for_client_socket_addresses,
}

module _ (rc5 : Rc5) {k : Constants} (v : IsValid k) {S : Type 0}
    (arena : Arena (SenderSession S)) where
  -- The session's sender carries a ring.
  abbrev pub IsCarrying : SenderSession S → Type 0
  IsCarrying s = (ps : List (Option (List ℕ))) × (lead : List ℕ) × Carries rc5 k s.sender ps lead

  module _ {F : Type 0} where
    pub record Sound (t : ServerToClientSender arena F) : Type 0 where
      pub indexed : Indexed arena t.sessions t.session_id_to_session_map
      pub carrying : Each arena IsCarrying t.sessions

    -- Sound, and holding the known sessions.
    abbrev pub Ready : (ℕ → Bool) → ServerToClientSender arena F → Type 0
    Ready known t = Sound t × Holds known t.session_id_to_session_map

    -- A step that sends nothing comes to its end, in a state that satisfies `P`.
    abbrev pub Quietly :
        (ServerToClientSender arena F → Type 0) → Outcome (ServerToClientSender arena F) → Type 0
    Quietly P o = (t : ServerToClientSender arena F) × (o ≡ done t []) × P t

    -- A new sending task of a server is sound and holds no session.
    pub new-Ready :
        (nonblocking : ℕ → Bool) (name : String) (mapper_socket : ℕ) (sockets : Mirroring → ℕ)
        (source_factory : F)
        → ((socket : ℕ) → nonblocking socket ≡ true)
        → Ends
            (Ready (λ id. false))
            (new arena nonblocking name mapper_socket sockets source_factory)
    unfolding new
    new-Ready nonblocking name mapper_socket sockets source_factory opened =
        rw
          (
            new,
            opened mapper_socket,
            opened (sockets audio_video),
            opened (sockets background),
            opened (sockets voice),
          )
          (
            _,
            refl,
            (
              record {
                indexed = record {
                  found = λ id i e. absurd (cc e);
                  distinct = λ a b i e e'. absurd (cc e);
                };
                carrying = λ i s e. absurd (cc (sym (arena.get-empty i) ∙ e));
              },
              λ id. refl,
            ),
          )

    module _ (factory : Factory F S) where
      connect-Ready :
          (known : ℕ → Bool) (t : ServerToClientSender arena F) (id key : ℕ)
          → Ready known t
          → known id ≡ false
          → Quietly
              (Ready (λ n. if n == id then true else known n))
              (connect arena k factory t id key)
      unfolding connect
      connect-Ready known t id key (sound, holds) fresh =
          let unknown : t.session_id_to_session_map id ≡ none = absent _ (holds id ∙ fresh) in
          rw (connect, unknown)
            (
              _,
              refl,
              (
                record {
                  indexed =
                      Indexed-insert arena _ t.sessions t.session_id_to_session_map id sound.indexed
                        unknown;
                  carrying =
                      Each-insert arena _ t.sessions IsCarrying sound.carrying
                        (_, _, new-Carries rc5 v key (factory.invoke t.source_factory id).0);
                },
                has-insert known t.session_id_to_session_map id _ holds,
              ),
            )

    disconnect-Ready :
        (known : ℕ → Bool) (t : ServerToClientSender arena F) (id : ℕ)
        → Ready known t
        → known id ≡ true
        → Quietly (Ready (λ n. if n == id then false else known n)) (disconnect arena t id)
    unfolding disconnect
    disconnect-Ready known t id (sound, holds) old =
        let (index, e) = there _ (holds id ∙ old) in
        rw (disconnect, e)
          (
            _,
            refl,
            (
              record {
                indexed =
                    Indexed-remove arena index t.sessions t.session_id_to_session_map id
                      sound.indexed e;
                carrying = Each-remove arena index t.sessions IsCarrying sound.carrying;
              },
              has-remove known t.session_id_to_session_map id holds,
            ),
          )

    module _ (factory : Factory F S) where
      pub events-Ready :
          (events : List ServerSessionEvent) (known : ℕ → Bool) (t : ServerToClientSender arena F)
          → Ready known t
          → Once known events
          → Quietly
              (Ready (known_after known events))
              (poll_server_session_events arena k factory t events)
      unfolding poll_server_session_events handle_event
      events-Ready [] known t h once = (t, refl, h)
      events-Ready (connected id key ∷ events) known t h once =
          let (t', e, h') = connect-Ready factory known t id key h once.0 in
          let (u, q, h'') = events-Ready events _ t' h' once.1 in
          (u, rw (poll_server_session_events, handle_event, e, q), h'')
      events-Ready (disconnected id ∷ events) known t h once =
          let (t', e, h') = disconnect-Ready known t id h once.0 in
          let (u, q, h'') = events-Ready events _ t' h' once.1 in
          (u, rw (poll_server_session_events, handle_event, e, q), h'')

    read_mapping-Ready :
        (known : ℕ → Bool) (t : ServerToClientSender arena F) (len : ℕ) (buffer : List ℕ)
        (addr : SocketAddr)
        → Ready known t
        → Quietly (Ready known) (read_mapping arena t len buffer addr)
    unfolding read_mapping map_address
    read_mapping-Ready known t len buffer addr (sound, holds) =
        let id = from_le_bytes (slice buffer 0 8) in
        elim (Bool-cases (len == 8)) [
          | inr other ↦ rw (read_mapping, other) (t, refl, (sound, holds))
          | inl eight ↦ elim (Option-cases (t.session_id_to_session_map id)) [
            | inl unknown ↦ rw (read_mapping, eight, unknown) (t, refl, (sound, holds))
            | inr known_id ↦
                let index = known_id.0 in
                let (session, there) = sound.indexed.found id index known_id.1 in
                let mapped : SenderSession S = record session { socket_addr = some addr } in
                rw (read_mapping, map_address, eight, known_id.1, there)
                  (
                    _,
                    refl,
                    (
                      record {
                        indexed =
                            Indexed-update arena index t.sessions session mapped there
                              t.session_id_to_session_map sound.indexed;
                        carrying =
                            Each-update arena index t.sessions session mapped there IsCarrying
                              sound.carrying (sound.carrying index session there);
                      },
                      holds,
                    ),
                  )
          ]
        ]

    -- Whatever arrives on the mapper's socket, the loop ends without a panic.
    pub addresses-Ready :
        (incoming : List (List ℕ × SocketAddr)) (buffer : List ℕ) (known : ℕ → Bool)
        (t : ServerToClientSender arena F)
        → Ready known t
        → Quietly (Ready known) (poll_for_client_socket_addresses arena t incoming buffer)
    unfolding poll_for_client_socket_addresses
    addresses-Ready [] buffer known t h = (t, refl, h)
    addresses-Ready ((bytes, addr) ∷ incoming) buffer known t h =
        let received = write buffer 0 bytes in
        let (t', e, h') =
          read_mapping-Ready known t (min (length bytes) (length buffer)) received addr h in
        let (u, q, h'') = addresses-Ready incoming received known t' h' in
        (u, rw (poll_for_client_socket_addresses, e, q), h'')
