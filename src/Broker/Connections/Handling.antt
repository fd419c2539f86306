-- ===== src/Broker/Connections/Handling.antt =====
-- What one connection does to a service.
use longboy.Prelude.{
  ℕ, zero, suc, ◌+◌, ◌-◌, ◌^◌, ◌≤◌, ◌<◌, ◌≡◌, refl, sym, ◌∙◌, ap, subst, arith, true, false, Option,
  some, List, ◌∷◌, length, inl, inr, Bool-cases,
}
use longboy.Handshake.{SendStream}
use longboy.Handshake.Laws.{new_server_session_lem}
use longboy.Server.{ServerSessionEvent, connected}
use longboy.Server.Registry.{Server, contains_key, register}
use longboy.Server.Registry.Streams.{Calls, registered}
use longboy.Broker.{allocate_session_id}
use longboy.Broker.Laws.{IsSeated}
use longboy.Broker.Connections.{Service, open_session, server_handle_connection}
use longboy.Broker.Connections.Seats.{
  Serving, seat_next, seat_none, register-room, taken, numbered_next, opened,
}

module _ {G : Type 0} (max : ℕ) where
  module _ (next_key : G → Option (ℕ × G)) where
    -- What a connection does to a service with `j` seats taken, of which there is another one.
    pub record Handled (j : ℕ) (s : Service G) (conn : SendStream) : Type 0 where
      pub after : Service G
      pub result : server_handle_connection next_key conn s ≡ some (taken conn, after)
      pub serving : Serving max (suc j) after
      pub registered : contains_key (j + 1) after.server.sessions ≡ taken conn
      pub calls :
          {u : Server} {events : List ServerSessionEvent}
          → Calls after.server events u
          → (events' : List ServerSessionEvent) × Calls s.server events' u

    open_session-lost :
        (conn : SendStream) (s : Service G) (session_id key : ℕ)
        → taken conn ≡ false
        → open_session next_key conn s session_id key ≡ some (false, s)
    unfolding open_session
    open_session-lost conn s session_id key lost =
        let e = new_server_session_lem conn session_id key in
        let e' = rw lost at e in rw (open_session, e')

    open_session-taken :
        (conn : SendStream) (s : Service G) (session_id key : ℕ) (t : Server)
        → taken conn ≡ true
        → register s.server session_id key ≡ some t
        → open_session next_key conn s session_id key ≡ some (true, record s { server = t })
    unfolding open_session
    open_session-taken conn s session_id key t held e =
        let n = new_server_session_lem conn session_id key in
        let n' = rw held at n in rw (open_session, n', e)

    -- Behind the seat and the key.
    connection_step :
        (j key : ℕ) (s s' : Service G) (conn : SendStream)
        → Serving max j s
        → Serving max (suc j) s'
        → s'.server ≡ s.server
        → server_handle_connection next_key conn s ≡ open_session next_key conn s' (j + 1) key
        → Handled j s conn
    connection_step j key s s' conn h h' same e = elim (Bool-cases (taken conn)) [
      | inr lost ↦ record {
        after = s';
        result = e ∙ open_session-lost conn s' (j + 1) key lost ∙ rw lost;
        serving = h';
        registered =
            ap (λ (v : Server). contains_key (j + 1) v.sessions) same
            ∙ h.fresh (j + 1) (omega arith)
            ∙ sym lost;
        calls = λ {u} {events} c. (events, rw same at c);
      }
      | inl held ↦
          let few : length s'.server.sessions ≤ j = rw same h.few in
          let fresh : (id : ℕ) → j < id → contains_key id s'.server.sessions ≡ false =
            rw same h.fresh in
          let (t, registers, now, room) =
            register-room s'.server (j + 1) key (omega (arith, h'.capacity, h'.within)) in
          let (serving, there) = opened max j key s' t h' fresh few now room in
          record {
            after = record s' { server = t };
            result = e ∙ open_session-taken conn s' (j + 1) key t held registers ∙ rw held;
            serving = serving;
            registered = there ∙ sym held;
            calls = λ {u} {events} c. (
              connected (j + 1) key ∷ events,
              registered (j + 1) key (h.fresh (j + 1) (omega arith)) (rw same at registers) c,
            );
          }
    ]

    handle_free :
        (j m : ℕ) (s : Service G) (conn : SendStream)
        → ((g : G) → (key : ℕ) × (g' : G) × (next_key g ≡ some (key, g')))
        → max + 1 < 2 ^ 64
        → Serving max j s
        → j + suc m ≡ max
        → IsSeated j (suc m) s.broker
        → Handled j s conn
    unfolding server_handle_connection allocate_session_id
    handle_free j m s conn endless small h sum seated =
        let (key, g, e) = endless s.keygenerator in
        connection_step j key s _ conn h (numbered_next max j m s g h sum small) refl
          (rw (server_handle_connection, seat_next j m s.broker seated, e, h.numbered) refl)

    -- A connection while there is a free seat.
    pub server_handle_connection-Handled :
        (j : ℕ) (s : Service G) (conn : SendStream)
        → ((g : G) → (key : ℕ) × (g' : G) × (next_key g ≡ some (key, g')))
        → max + 1 < 2 ^ 64
        → Serving max j s
        → j < max
        → Handled j s conn
    server_handle_connection-Handled j s conn endless small h free =
        let one : h.m ≡ suc (max - j - 1) = omega (arith, h.seats) in
        handle_free j (max - j - 1) s conn endless small h (omega arith)
          (let seated : IsSeated j h.m s.broker = h.seated in rw one at seated)

    pub full :
        (s : Service G) (conn : SendStream)
        → Serving max max s
        → server_handle_connection next_key conn s ≡ some (false, s)
    unfolding server_handle_connection
    full s conn h =
        let none_left : h.m ≡ zero = omega (arith, h.seats) in
        let seated : IsSeated max zero s.broker =
          subst (λ (m : ℕ). IsSeated max m s.broker) none_left h.seated in
        rw (server_handle_connection, seat_none max s.broker seated)
