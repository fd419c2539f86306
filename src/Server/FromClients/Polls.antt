-- ===== src/Server/FromClients/Polls.antt =====
-- One poll of the server's receiving task. What comes off the network cannot make it panic.
use mathlib.Core.Option.{some-injective}
use longboy.Prelude.{
  ℕ, ◌<◌, ◌≡◌, ◌≢◌, refl, sym, ◌∙◌, ap, arith, some, inl, inr, List, [], ◌∷◌, length, min, get_or,
  foldl, Option-cases, Bool-cases, ℕ_discrete, ltb, leb, ◌==◌,
}
use longboy.Prelude.Slices.{slice, write, length-write, length-slice}
use longboy.Prelude.Bytes.{from_le_bytes}
use longboy.Proto.Constants.{Constants, IsValid, datagram_size}
use longboy.Proto.Cipher.{Rc5}
use longboy.Proto.Receiver.{Sink, handle_datagram}
use longboy.Proto.Receiver.Invariant.{handle_datagram_safe}
use longboy.Effects.{Mirroring, SocketAddr}
use longboy.Client.ToServer.{each}
use longboy.Server.{Arena}
use longboy.Server.Maps.{
  Map, insert, remove, forget, assign, assign_self, assign_ne, insert-some, forget-some,
}
use longboy.Server.FromClients.{
  ReceiverSession, ClientToServerReceiver, from_usize, disconnect_at, map_address, read_mapping,
  poll_for_client_socket_addresses, deliver, read_datagram, poll_for_client_datagrams,
}
use longboy.Server.Sessions.{Indexed-remove, Each-remove}
use longboy.Server.Events.{Ends}
use longboy.Server.FromClients.Sound.{forgotten, IsReady, Sound, updated}

module _ {k : Constants} (v : IsValid k) {K : Type 0} (arena : Arena (ReceiverSession K))
    {F : Type 0} where
  map_address-Sound :
      (t : ClientToServerReceiver arena F) (index : ℕ) (m : Mirroring) (addr : SocketAddr)
      (session : ReceiverSession K)
      → Sound k arena t
      → arena.get index t.sessions ≡ some session
      → Ends (Sound k arena) (map_address arena t index m addr)
  unfolding map_address
  map_address-Sound t index m addr session h there =
      rw (map_address, there)
        (
          _,
          refl,
          updated k arena t index session new_session new_map h there
              (h.receivers index session there) mapped,
        )
    where
      new_session : ReceiverSession K
      new_session = record session { socket_addrs = assign session.socket_addrs m (some addr) }

      without : Map
      without = forget t.socket_addr_to_session_map (session.socket_addrs m)

      new_map : Map
      new_map = insert addr index without

      mapped :
          (a i : ℕ)
          → new_map a ≡ some i
          → (s : ReceiverSession K) × (arena.get i (arena.update index new_session t.sessions)
              ≡ some s)
            × (n : Mirroring) × (s.socket_addrs n ≡ some a)
      mapped a i e = elim (insert-some addr index a i without e) [
        | inl q ↦ (
          new_session,
          rw q.1 (arena.get-update_self index session new_session t.sessions there),
          m,
          assign_self session.socket_addrs m (some addr) ∙ ap some (sym q.0),
        )
        | inr q ↦
            let (kept, before) =
              forget-some (session.socket_addrs m) a i t.socket_addr_to_session_map q.1 in
            let (s, there', n, has) = h.addrs a i before in
            elim (ℕ_discrete index i) [
              | yes same ↦
                  let it : s ≡ session =
                    some-injective _ _
                      (sym there' ∙ ap (λ (j : ℕ). arena.get j t.sessions) (sym same) ∙ there) in
                  elim (assign_ne session.socket_addrs m n (some addr)) [
                    | inl at_m ↦ absurd (
                        kept (
                          ap session.socket_addrs at_m
                          ∙ ap (λ (r : ReceiverSession K). r.socket_addrs n) (sym it)
                          ∙ has))
                    | inr rest ↦ (
                      new_session,
                      rw (← same)
                          (arena.get-update_self index session new_session t.sessions there),
                      n,
                      rest ∙ ap (λ (r : ReceiverSession K). r.socket_addrs n) (sym it) ∙ has,
                    )
                  ]
              | no other ↦
                  (s, arena.get-update_ne index i new_session t.sessions other ∙ there', n, has)
            ]
      ]

  pub disconnect_at-Sound :
      (t : ClientToServerReceiver arena F) (id index : ℕ)
      → Sound k arena t
      → t.session_id_to_session_map id ≡ some index
      → Ends
          (λ t'.
            Sound k arena t'
            × (t'.session_id_to_session_map ≡ remove id t.session_id_to_session_map))
          (disconnect_at arena t id index)
  unfolding disconnect_at
  disconnect_at-Sound t id index h e =
      let (session, there) = h.indexed.found id index e in
      let gone : (arena.remove index t.sessions).0 ≡ some session =
        arena.remove_lem index t.sessions ∙ there in
      rw (disconnect_at, gone) (_, refl, (left session there, refl))
    where
      left :
          (session : ReceiverSession K)
          → arena.get index t.sessions ≡ some session
          → Sound k arena (record t {
            sessions = (arena.remove index t.sessions).1;
            session_id_to_session_map = remove id t.session_id_to_session_map;
            socket_addr_to_session_map =
                foldl forget t.socket_addr_to_session_map (each session.socket_addrs);
          })
      left session there = record {
        indexed = Indexed-remove arena index t.sessions t.session_id_to_session_map id h.indexed e;
        addrs = λ a i q.
            let (none_of, before) =
              forgotten session.socket_addrs t.socket_addr_to_session_map a i q in
            let (s, there', m, has) = h.addrs a i before in
            let apart : index ≢ i = λ same.
              let it : session ≡ s =
                some-injective _ _
                  (sym there ∙ ap (λ (j : ℕ). arena.get j t.sessions) same ∙ there') in
              none_of m (ap (λ (r : ReceiverSession K). r.socket_addrs m) it ∙ has) in
            (s, arena.get-remove_ne index i t.sessions apart ∙ there', m, has);
        receivers = Each-remove arena index t.sessions (IsReady k) h.receivers;
      }

  read_mapping-Sound :
      (t : ClientToServerReceiver arena F) (len : ℕ) (buffer : List ℕ) (addr : SocketAddr)
      → Sound k arena t
      → Ends (Sound k arena) (read_mapping arena t len buffer addr)
  unfolding read_mapping
  read_mapping-Sound t len buffer addr h =
      let id = from_le_bytes (slice buffer 0 8) in
      elim (Bool-cases (ltb len 9)) [
        | inl short ↦ rw short (t, refl, h)
        | inr long ↦ elim (Bool-cases (leb 3 (get_or buffer 8 0))) [
          | inl large ↦ rw (long, large) (t, refl, h)
          | inr small ↦ elim (Option-cases (t.session_id_to_session_map id)) [
            | inl unknown ↦ rw (long, small, unknown) (t, refl, h)
            | inr known ↦
                let (session, there) = h.indexed.found id known.0 known.1 in
                rw (long, small, known.1)
                  (map_address-Sound t known.0 (from_usize (get_or buffer 8 0)) addr session h
                    there)
          ]
        ]
      ]

  -- Whatever arrives on the mapper's socket, the loop ends without a panic, in a sound state.
  pub addresses-Sound :
      (t : ClientToServerReceiver arena F) (incoming : List (List ℕ × SocketAddr)) (buffer : List ℕ)
      → Sound k arena t
      → Ends (Sound k arena) (poll_for_client_socket_addresses arena t incoming buffer)
  unfolding poll_for_client_socket_addresses
  addresses-Sound t [] buffer h = (t, refl, h)
  addresses-Sound t ((bytes, addr) ∷ incoming) buffer h =
      let received = write buffer 0 bytes in
      let (t', e, h') = read_mapping-Sound t (min (length bytes) (length buffer)) received addr h in
      rw (poll_for_client_socket_addresses, e) (addresses-Sound t' incoming received h')

  module _ (rc5 : Rc5) (sink : Sink K) where
    deliver-Sound :
        (t : ClientToServerReceiver arena F) (timestamp index : ℕ) (datagram : List ℕ)
        (session : ReceiverSession K)
        → Sound k arena t
        → arena.get index t.sessions ≡ some session
        → length datagram ≡ datagram_size k
        → Ends (λ step. Sound k arena step.0) (deliver arena rc5 k sink t timestamp index datagram)
    unfolding deliver
    deliver-Sound t timestamp index datagram session h there size =
        let new_session : ReceiverSession K = record session {
          receiver = (handle_datagram rc5 k sink session.receiver timestamp datagram).0;
        } in
        let (range, waits) = h.receivers index session there in
        let safe =
          handle_datagram_safe rc5 v sink session.receiver timestamp datagram range waits size in
        rw (deliver, there)
          (
            _,
            refl,
            updated k arena t index session new_session t.socket_addr_to_session_map h there
                (safe.range, safe.waits)
                (λ a i e.
                  let (s, there', m, has) = h.addrs a i e in
                  elim (ℕ_discrete index i) [
                    | yes same ↦
                        let it : session ≡ s =
                          some-injective _ _
                            (sym there ∙ ap (λ (j : ℕ). arena.get j t.sessions) same ∙ there') in
                        (
                          new_session,
                          rw (← same)
                              (arena.get-update_self index session new_session t.sessions there),
                          m,
                          ap (λ (r : ReceiverSession K). r.socket_addrs m) it ∙ has,
                        )
                    | no other ↦ (
                      s,
                      arena.get-update_ne index i new_session t.sessions other ∙ there',
                      m,
                      has,
                    )
                  ]),
          )

    read_datagram-Sound :
        (t : ClientToServerReceiver arena F) (timestamp len : ℕ) (buffer : List ℕ)
        (addr : SocketAddr)
        → Sound k arena t
        → length buffer ≡ 512
        → Ends
            (λ step. Sound k arena step.0)
            (read_datagram arena rc5 k sink t timestamp len buffer addr)
    unfolding read_datagram
    read_datagram-Sound t timestamp len buffer addr h e =
        let datagram = slice buffer 0 (datagram_size k) in
        let sized : datagram_size k < 420 = v.fits in
        elim (Bool-cases (len == datagram_size k)) [
          | inr other ↦ rw other ((t, datagram), refl, h)
          | inl same ↦ elim (Option-cases (t.socket_addr_to_session_map addr)) [
            | inl unknown ↦ rw (same, unknown) ((t, datagram), refl, h)
            | inr known ↦
                let (session, there, m, has) = h.addrs addr known.0 known.1 in
                rw (same, known.1)
                  (deliver-Sound t timestamp known.0 datagram session h there
                    (length-slice buffer 0 (datagram_size k) (omega arith)))
          ]
        ]

    -- Whatever arrives on the data socket, and from whom, the loop ends without a panic, in a sound
    -- state.
    pub datagrams-Sound :
        (t : ClientToServerReceiver arena F) (timestamp : ℕ) (incoming : List (List ℕ × SocketAddr))
        (buffer : List ℕ)
        → Sound k arena t
        → length buffer ≡ 512
        → Ends
            (Sound k arena)
            (poll_for_client_datagrams arena rc5 k sink t timestamp incoming buffer)
    unfolding poll_for_client_datagrams
    datagrams-Sound t timestamp [] buffer h e = (t, refl, h)
    datagrams-Sound t timestamp ((bytes, addr) ∷ incoming) buffer h e =
        let received = write buffer 0 bytes in
        let (step, q, h') =
          read_datagram-Sound t timestamp (min (length bytes) (length buffer)) received addr h
            (length-write buffer 0 bytes ∙ e) in
        rw (poll_for_client_datagrams, q)
          (datagrams-Sound step.0 timestamp incoming (write received 0 step.1) h'
            (length-write received 0 step.1 ∙ length-write buffer 0 bytes ∙ e))
