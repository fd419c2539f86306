-- ===== src/Server/Registry.antt =====
-- crates/longboy/src/server.rs: registering sessions with a running server. `none` is a panic. The
-- tasks hold the other ends of the channels, so a send succeeds.
pub mod Streams
pub mod Lives
pub mod Twice
use longboy.Prelude.{
  ℕ, ◌+◌, Bool, true, false, Option, none, some, List, [], ◌∷◌, ◌++◌, map, length, ltb, ◌==◌,
  if◌then◌else◌,
}
use longboy.Server.{ServerSessionEvent, connected, disconnected}

-- The session ids with their cipher keys; `capacity` is that of the hash map. A channel is what has
-- been sent on it.
pub record Server : Type 0 where
  pub sessions : List (ℕ × ℕ)
  pub capacity : ℕ
  pub session_senders : List (List ServerSessionEvent)

-- `FnvHashMap::contains_key`, `insert` and `remove`.
unfoldable pub contains_key : ℕ → List (ℕ × ℕ) → Bool
contains_key id [] = false
contains_key id ((key, value) ∷ entries) = if id == key then true else contains_key id entries

unfoldable pub remove_key : ℕ → List (ℕ × ℕ) → List (ℕ × ℕ)
remove_key id [] = []
remove_key id ((key, value) ∷ entries) =
    let rest = remove_key id entries in if id == key then rest else (key, value) ∷ rest

abbrev pub send_all :
    ServerSessionEvent → List (List ServerSessionEvent) → List (List ServerSessionEvent)
send_all event = map (λ channel. channel ++ event ∷ [])

unfoldable pub register : Server → ℕ → ℕ → Option Server
unfolding remove_key
register server session_id cipher_key =
    if ltb (length server.sessions) server.capacity
    then some (record server {
      sessions = (session_id, cipher_key) ∷ remove_key session_id server.sessions;
      session_senders = send_all (connected session_id cipher_key) server.session_senders;
    })
    else none

unfoldable pub unregister : Server → ℕ → Option Server
unfolding remove_key contains_key
unregister server session_id =
    if contains_key session_id server.sessions
    then some (record server {
      sessions = remove_key session_id server.sessions;
      session_senders = send_all (disconnected session_id) server.session_senders;
    })
    else none
