-- ===== src/Broker/Connections.antt =====
-- crates/longboy-server-cli/src/main.rs: what the server's program does with the connections that
-- come in, one after the other. `none` is a panic.
pub mod Seats
pub mod Handling
pub mod Runs
pub mod Players
use longboy.Prelude.{ℕ, Bool, true, false, Option, none, some, List, [], ◌∷◌}
use longboy.Handshake.{SendStream, ServerSession, new_server_session}
use longboy.Server.Registry.{Server, register}
use longboy.Broker.{SessionBroker, next_player_index, allocate_session_id}

-- What the handler of a connection borrows; `keygenerator` is the sequence of keys.
pub record Service (G : Type 0) : Type 0 where
  pub broker : SessionBroker
  pub server : Server
  pub keygenerator : G

-- `next_key` is the `next` of the key generator.
module _ {G : Type 0} (next_key : G → Option (ℕ × G)) where
  -- Behind the key: the session, if the client takes it, is registered.
  unfoldable pub open_session : SendStream → Service G → ℕ → ℕ → Option (Bool × Service G)
  open_session conn s session_id cipher_key =
      elim (new_server_session conn session_id cipher_key).0 [
        | none ↦ some (false, s)
        | some session ↦ elim (register s.server session.session_id session.cipher_key) [
          | none ↦ none
          | some server ↦ some (true, record s { server = server })
        ]
      ]

  -- The result says whether there was no error.
  unfoldable pub server_handle_connection : SendStream → Service G → Option (Bool × Service G)
  unfolding open_session
  server_handle_connection conn s = elim (next_player_index s.broker) [
    | none ↦ some (false, s)
    | some seat ↦
        let (session_id, broker) = allocate_session_id seat.1 seat.0 in
        elim (next_key s.keygenerator) [
          | none ↦ none
          | some key ↦
              open_session conn (record s { broker = broker; keygenerator = key.1 }) session_id
                key.0
        ]
  ]

  -- The loop on `accept`; an error is logged and the loop goes on.
  unfoldable pub serve : List SendStream → Service G → Option (Service G)
  unfolding server_handle_connection
  serve [] s = some s
  serve (conn ∷ conns) s = elim (server_handle_connection conn s) [
    | none ↦ none
    | some handled ↦ serve conns handled.1
  ]
