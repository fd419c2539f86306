-- ===== src/Broker.antt =====
-- crates/longboy-server-cli/src/broker.rs. The channels are clones of one, so one queue.
pub mod Laws
pub mod Connections
use longboy.Prelude.{
  ℕ, zero, suc, ◌+◌, ◌%◌, ◌^◌, Bool, true, false, Option, none, some, List, [], ◌∷◌, ◌++◌, set,
  replicate, ltb, if◌then◌else◌,
}
use longboy.Prelude.Slices.{slice, write}
use longboy.Prelude.Bytes.{to_le_bytes, from_le_bytes}
use longboy.Server.Maps.{Map, insert}

-- `(u64, u64, u64, u8)`
pub record Message : Type 0 where
  pub a : ℕ
  pub b : ℕ
  pub c : ℕ
  pub player_index : ℕ

pub record SessionBroker : Type 0 where
  pub queue : List Message
  pub next_session_id : ℕ
  pub player_sessions : Map
  pub player_index_free_list : List Bool

unfoldable pub new : ℕ → SessionBroker
new max_players = record {
  queue = [];
  next_session_id = 1;
  player_sessions = λ id. none;
  player_index_free_list = replicate max_players true;
}

-- `fetch_add` wraps. The warning on an overwritten session is left out.
unfoldable pub allocate_session_id : SessionBroker → ℕ → ℕ × SessionBroker
allocate_session_id broker player_index = (
  broker.next_session_id,
  record broker {
    next_session_id = (broker.next_session_id + 1) % 2 ^ 64;
    player_sessions = insert broker.next_session_id player_index broker.player_sessions;
  },
)

-- `position(|&is_free| is_free)`
abbrev pub later : Option ℕ → Option ℕ
later none = none
later (some i) = some (suc i)

unfoldable pub position : List Bool → Option ℕ
position [] = none
position (true ∷ flags) = some 0
position (false ∷ flags) = later (position flags)

-- `none` is the error that there are too many players.
unfoldable pub next_player_index : SessionBroker → Option (ℕ × SessionBroker)
next_player_index broker = elim (position broker.player_index_free_list) [
  | none ↦ none
  | some index ↦ some (
    index,
    record broker { player_index_free_list = set broker.player_index_free_list index false },
  )
]

-- `ClientBroker::invoke`: the player of a sink. `none` is the panic on an unknown session.
unfoldable pub invoke : SessionBroker → ℕ → Option ℕ
invoke broker session_id = elim (broker.player_sessions session_id) [
  | none ↦ none
  | some player_index ↦ some (player_index % 256)
]

-- `ServerBroker::invoke`: the place of a source's channel. `none` is the panic on an unknown session,
-- or on a place behind the `max_players` channels.
unfoldable pub invoke_server : ℕ → SessionBroker → ℕ → Option ℕ
invoke_server max_players broker session_id = elim (broker.player_sessions session_id) [
  | none ↦ none
  | some player_index ↦ if ltb player_index max_players then some player_index else none
]

-- `ClientToServerSink::handle`, a `Sink<28>`: the buffer has 28 bytes.
unfoldable pub handle : ℕ → List ℕ → List Message → List Message
handle player_index buffer queue =
    queue
    ++ record {
      a = from_le_bytes (slice buffer 0 8);
      b = from_le_bytes (slice buffer 8 8);
      c = from_le_bytes (slice buffer 16 8);
      player_index = player_index;
    }
      ∷ []

-- `ServerToClientSource::poll`, a `Source<28>`: whether there was a message, the buffer, and the queue.
unfoldable pub poll : List ℕ → List Message → Bool × List ℕ × List Message
poll buffer [] = (false, buffer, [])
poll buffer (m ∷ queue) =
    let first = write buffer 0 (to_le_bytes 8 m.a) in
    let second = write first 8 (to_le_bytes 8 m.b) in
    let third = write second 16 (to_le_bytes 8 m.c) in
    (true, write third 24 (to_le_bytes 1 m.player_index), queue)
