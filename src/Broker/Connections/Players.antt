-- ===== src/Broker/Connections/Players.antt =====
-- The factories of the broker know the player of every session that is registered.
use longboy.Prelude.{
  ℕ, zero, suc, ◌+◌, ◌%◌, ◌≤◌, ◌<◌, ◌≡◌, sym, ◌∙◌, ap, arith, true, some, inl, inr, ltb, Bool-cases,
}
use longboy.Server.Registry.{contains_key}
use longboy.Broker.{invoke, invoke_server}
use longboy.Broker.Connections.{Service}
use longboy.Broker.Connections.Seats.{Serving}

module _ {G : Type 0} (max j : ℕ) (s : Service G) where
  -- A registered session's number is that of a seat that is taken.
  seat_of :
      (id : ℕ)
      → Serving max j s
      → contains_key id s.server.sessions ≡ true
      → (player : ℕ) × (id ≡ player + 1) × (player < j)
  seat_of zero h known = absurd (cc (sym known ∙ h.no_zero))
  seat_of (suc player) h known = elim (Bool-cases (ltb player j)) [
    | inl below ↦ (player, omega arith, ground arith)
    | inr above ↦
        let past : j < suc player = ground arith in
        absurd (cc (sym known ∙ h.fresh (suc player) past))
  ]

  -- In a server's program with at most 256 seats that serves sessions numbered by their seats:
  -- for every session that is registered with the server, both factories of the broker, which the
  -- tasks call when it connects, come to their end without a panic, and both have the player of
  -- its seat, whose number is the session's less one.
  pub invoke-Serving :
      (id : ℕ)
      → max ≤ 256
      → Serving max j s
      → contains_key id s.server.sessions ≡ true
      → (player : ℕ) × (id ≡ player + 1)
        × (player < max)
        × (invoke s.broker id ≡ some player)
        × (invoke_server max s.broker id ≡ some player)
  unfolding invoke invoke_server
  invoke-Serving id small h known =
      let (player, e, taken) = seat_of id h known in
      let below : player < max = omega (arith, h.within) in
      let inside : ltb player max ≡ true = ground arith in
      let byte : player % 256 ≡ player = omega arith in
      let seat : s.broker.player_sessions id ≡ some player =
        ap s.broker.player_sessions e ∙ h.players player taken in
      (player, e, below, rw (invoke, seat, byte), rw (invoke_server, seat, inside))
