-- ===== src/Broker/Connections/Seats.antt =====
-- One session, one seat, one player: the connections of a server.
use longboy.Prelude.{
  ℕ, zero, suc, ◌+◌, ◌^◌, ◌≤◌, ◌<◌, ◌≡◌, refl, ◌∙◌, ap, arith, Bool, true, false, none, some, List,
  [], ◌∷◌, ◌++◌, replicate, length, set, ltb, inl, inr, Bool-cases, ℕ_discrete, ◌==◌, ==_self,
  ==_ne, ◌&&◌, if◌then◌else◌,
}
use longboy.Handshake.{SendStream}
use longboy.Handshake.Laws.{written}
use longboy.Server.Registry.{Server, contains_key, remove_key, register}
use longboy.Server.Registry.Streams.{contains-insert}
use longboy.Broker.{SessionBroker, next_player_index, allocate_session_id}
use longboy.Broker.Laws.{IsSeated, next_player_index_lem, position-free, set-free}
use longboy.Broker.Connections.{Service}

-- With `j` of `max` seats taken: the sessions are numbered from 1 to `j` at most, in the order of
-- the seats, and each leads to the player of its seat.
pub record Serving {G : Type 0} (max j : ℕ) (s : Service G) : Type 0 where
  pub within : j ≤ max
  pub m : ℕ
  pub seats : j + m ≡ max
  pub seated : IsSeated j m s.broker
  pub numbered : s.broker.next_session_id ≡ j + 1
  pub players : (id : ℕ) → id < j → s.broker.player_sessions (id + 1) ≡ some id
  pub no_zero : contains_key 0 s.server.sessions ≡ false
  pub fresh : (id : ℕ) → j < id → contains_key id s.server.sessions ≡ false
  pub few : length s.server.sessions ≤ j
  pub capacity : max ≤ s.server.capacity

length-remove_key :
    (id : ℕ) (entries : List (ℕ × ℕ)) → length (remove_key id entries) ≤ length entries
unfolding remove_key
length-remove_key id [] = omega arith
length-remove_key id ((key, value) ∷ entries) = elim (Bool-cases (id == key)) [
  | inl here ↦ rw here (omega (arith, length-remove_key id entries))
  | inr away ↦ rw away (omega (arith, length-remove_key id entries))
]

-- Seating a player changes the seats only.
pub seat_next :
    (j m : ℕ) (broker : SessionBroker)
    → IsSeated j (suc m) broker
    → next_player_index broker
      ≡ some (
        j,
        record broker { player_index_free_list = replicate (suc j) false ++ replicate m true },
      )
unfolding next_player_index
seat_next j m broker h =
    rw (next_player_index, h, position-free j m)
      (ap (λ flags. some (j, record broker { player_index_free_list = flags }))
        (ap (λ flags. set flags j false) h ∙ set-free j m))

pub seat_none :
    (j : ℕ) (broker : SessionBroker) → IsSeated j zero broker → next_player_index broker ≡ none
seat_none j broker h = next_player_index_lem j zero broker h

-- A session that the server has room for.
pub register-room :
    (s : Server) (id key : ℕ)
    → length s.sessions < s.capacity
    → (t : Server) × (register s id key ≡ some t)
      × (t.sessions ≡ (id, key) ∷ remove_key id s.sessions)
      × (t.capacity ≡ s.capacity)
unfolding register
register-room s id key room =
    let roomy : ltb (length s.sessions) s.capacity ≡ true = ground arith in
    rw (register, roomy) (_, refl, refl, refl)

-- Whether the client takes the session.
abbrev pub taken : SendStream → Bool
taken conn = written conn && (conn.finish && conn.stopped)

module _ {G : Type 0} (max : ℕ) where
  -- One more player is seated, with a number and a key, when the server is as it was.
  pub numbered_next :
      (j m : ℕ) (s : Service G) (g : G)
      → Serving max j s
      → j + suc m ≡ max
      → max + 1 < 2 ^ 64
      → Serving max (suc j) (record s {
        broker =
            (allocate_session_id
              (record s.broker {
                player_index_free_list = replicate (suc j) false ++ replicate m true;
              })
              j).1;
        keygenerator = g;
      })
  unfolding allocate_session_id
  numbered_next j m s g h sum small = record {
    within = omega arith;
    m = m;
    seats = omega arith;
    seated = refl;
    numbered = omega (arith, h.numbered);
    players = λ id lt. elim (ℕ_discrete id j) [
      | yes same ↦
          let here : id + 1 ≡ s.broker.next_session_id = omega (arith, h.numbered) in
          rw (here, ==_self s.broker.next_session_id, same) refl
      | no other ↦
          rw (==_ne (id + 1) s.broker.next_session_id (λ e. other (omega (arith, h.numbered))))
            (h.players id (omega arith))
    ];
    no_zero = h.no_zero;
    fresh = λ id lt. h.fresh id (omega arith);
    few = omega (arith, h.few);
    capacity = h.capacity;
  }

  -- A session with the number of the seat, in the server.
  pub opened :
      (j key : ℕ) (s : Service G) (t : Server)
      → Serving max (suc j) s
      → ((id : ℕ) → j < id → contains_key id s.server.sessions ≡ false)
      → length s.server.sessions ≤ j
      → t.sessions ≡ (j + 1, key) ∷ remove_key (j + 1) s.server.sessions
      → t.capacity ≡ s.server.capacity
      → Serving max (suc j) (record s { server = t }) × (contains_key (j + 1) t.sessions ≡ true)
  opened j key s t h fresh few now room =
      let known : (n : ℕ)
          → contains_key n t.sessions
            ≡ (if n == j + 1 then true else contains_key n s.server.sessions) =
        λ n. ap (contains_key n) now ∙ contains-insert (j + 1) key n s.server.sessions in
      (
        record {
          within = h.within;
          m = h.m;
          seats = h.seats;
          seated = h.seated;
          numbered = h.numbered;
          players = h.players;
          no_zero = known 0 ∙ rw (==_ne 0 (j + 1) (λ e. absurd (omega arith))) h.no_zero;
          fresh =
              λ id lt. known id ∙ rw (==_ne id (j + 1) (λ e. absurd (omega arith))) (h.fresh id lt);
          few = rw now (omega (arith, length-remove_key (j + 1) s.server.sessions));
          capacity = rw room h.capacity;
        },
        known (j + 1) ∙ rw (==_self (j + 1)),
      )
