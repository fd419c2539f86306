-- ===== src/Server/FromClients/Ids.antt =====
-- What comes off the network does not change which sessions the server's receiving task knows.
use longboy.Prelude.{
  ℕ, ◌≡◌, refl, Option, none, some, inl, inr, List, [], ◌∷◌, length, min, get_or, Option-cases,
  Bool-cases, ltb, leb, ◌==◌, subst,
}
use longboy.Prelude.Slices.{slice, write}
use longboy.Prelude.Bytes.{from_le_bytes}
use longboy.Proto.Constants.{Constants, datagram_size}
use longboy.Proto.Cipher.{Rc5}
use longboy.Proto.Receiver.{Sink}
use longboy.Effects.{Mirroring, SocketAddr}
use longboy.Server.{Arena}
use longboy.Server.Maps.{Map}
use longboy.Server.FromClients.{
  ReceiverSession, ClientToServerReceiver, from_usize, map_address, read_mapping,
  poll_for_client_socket_addresses, deliver, read_datagram, poll_for_client_datagrams,
}

module _ {K : Type 0} {arena : Arena (ReceiverSession K)} {F : Type 0} where
  -- A result, if there is one, has the session numbers `ids`.
  abbrev pub HasIds : Map → Option (ClientToServerReceiver arena F) → Type 0
  HasIds ids none = Unit {0}
  HasIds ids (some t) = t.session_id_to_session_map ≡ ids

  abbrev HasIdsStep : Map → Option (ClientToServerReceiver arena F × List ℕ) → Type 0
  HasIdsStep ids none = Unit {0}
  HasIdsStep ids (some step) = step.0.session_id_to_session_map ≡ ids

module _ {K : Type 0} (arena : Arena (ReceiverSession K)) {F : Type 0} where
  map_address-HasIds :
      (t : ClientToServerReceiver arena F) (index : ℕ) (m : Mirroring) (addr : SocketAddr)
      → HasIds t.session_id_to_session_map (map_address arena t index m addr)
  unfolding map_address
  map_address-HasIds t index m addr = elim (Option-cases (arena.get index t.sessions)) [
    | inl gone ↦ rw (map_address, gone) tt
    | inr known ↦ rw (map_address, known.1) refl
  ]

  read_mapping-HasIds :
      (t : ClientToServerReceiver arena F) (len : ℕ) (buffer : List ℕ) (addr : SocketAddr)
      → HasIds t.session_id_to_session_map (read_mapping arena t len buffer addr)
  unfolding read_mapping
  read_mapping-HasIds t len buffer addr = elim (Bool-cases (ltb len 9)) [
    | inl short ↦ rw (read_mapping, short) refl
    | inr long ↦ elim (Bool-cases (leb 3 (get_or buffer 8 0))) [
      | inl large ↦ rw (read_mapping, long, large) refl
      | inr small ↦
          elim (Option-cases (t.session_id_to_session_map (from_le_bytes (slice buffer 0 8)))) [
            | inl unknown ↦ rw (read_mapping, long, small, unknown) refl
            | inr known ↦
                rw (read_mapping, long, small, known.1)
                  (map_address-HasIds t known.0 (from_usize (get_or buffer 8 0)) addr)
          ]
    ]
  ]

  pub addresses-HasIds :
      (t : ClientToServerReceiver arena F) (incoming : List (List ℕ × SocketAddr)) (buffer : List ℕ)
      → HasIds t.session_id_to_session_map
          (poll_for_client_socket_addresses arena t incoming buffer)
  unfolding poll_for_client_socket_addresses
  addresses-HasIds t [] buffer = refl
  addresses-HasIds t ((bytes, addr) ∷ incoming) buffer =
      let received = write buffer 0 bytes in
      let len = min (length bytes) (length buffer) in
      let one = read_mapping-HasIds t len received addr in
      elim (Option-cases (read_mapping arena t len received addr)) [
        | inl stops ↦ rw (poll_for_client_socket_addresses, stops) tt
        | inr (t', e) ↦
            let same = rw e at one in
            rw (poll_for_client_socket_addresses, e)
              (subst
                (λ ids. HasIds ids (poll_for_client_socket_addresses arena t' incoming received))
                same (addresses-HasIds t' incoming received))
      ]

  module _ (rc5 : Rc5) (k : Constants) (sink : Sink K) where
    deliver-HasIds :
        (t : ClientToServerReceiver arena F) (timestamp index : ℕ) (datagram : List ℕ)
        → HasIdsStep t.session_id_to_session_map
            (deliver arena rc5 k sink t timestamp index datagram)
    unfolding deliver
    deliver-HasIds t timestamp index datagram = elim (Option-cases (arena.get index t.sessions)) [
      | inl gone ↦ rw (deliver, gone) tt
      | inr known ↦ rw (deliver, known.1) refl
    ]

    read_datagram-HasIds :
        (t : ClientToServerReceiver arena F) (timestamp len : ℕ) (buffer : List ℕ)
        (addr : SocketAddr)
        → HasIdsStep t.session_id_to_session_map
            (read_datagram arena rc5 k sink t timestamp len buffer addr)
    unfolding read_datagram
    read_datagram-HasIds t timestamp len buffer addr = elim (Bool-cases (len == datagram_size k)) [
      | inr other ↦ rw (read_datagram, other) refl
      | inl same ↦ elim (Option-cases (t.socket_addr_to_session_map addr)) [
        | inl unknown ↦ rw (read_datagram, same, unknown) refl
        | inr known ↦
            rw (read_datagram, same, known.1)
              (deliver-HasIds t timestamp known.0 (slice buffer 0 (datagram_size k)))
      ]
    ]

    pub datagrams-HasIds :
        (t : ClientToServerReceiver arena F) (timestamp : ℕ) (incoming : List (List ℕ × SocketAddr))
        (buffer : List ℕ)
        → HasIds t.session_id_to_session_map
            (poll_for_client_datagrams arena rc5 k sink t timestamp incoming buffer)
    unfolding poll_for_client_datagrams
    datagrams-HasIds t timestamp [] buffer = refl
    datagrams-HasIds t timestamp ((bytes, addr) ∷ incoming) buffer =
        let received = write buffer 0 bytes in
        let len = min (length bytes) (length buffer) in
        let one = read_datagram-HasIds t timestamp len received addr in
        elim (Option-cases (read_datagram arena rc5 k sink t timestamp len received addr)) [
          | inl stops ↦ rw (poll_for_client_datagrams, stops) tt
          | inr (step, e) ↦
              let same = rw e at one in
              rw (poll_for_client_datagrams, e)
                (subst
                  (λ ids. HasIds ids (
                    poll_for_client_datagrams arena rc5 k sink step.0 timestamp incoming
                      (write received 0 step.1)))
                  same (datagrams-HasIds step.0 timestamp incoming (write received 0 step.1)))
        ]
