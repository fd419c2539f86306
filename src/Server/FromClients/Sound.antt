-- ===== src/Server/FromClients/Sound.antt =====
-- The two maps of the server's receiving task point to sessions that are there, so its `unwrap`s
-- hold, and its receivers are in range.
use longboy.Prelude.{ℕ, ◌≡◌, ◌≢◌, Option, none, some, foldl}
use longboy.Proto.Constants.{Constants}
use longboy.Proto.Receiver.Cycles.{InRange, IsWaiting}
use longboy.Effects.{Mirroring, audio_video, background, voice}
use longboy.Client.ToServer.{each}
use longboy.Server.{Arena}
use longboy.Server.Maps.{Map, insert, forget, forget-some}
use longboy.Server.Sessions.{
  Indexed, Each, get-insert, Indexed-insert, Each-insert, Indexed-update, Each-update,
}
use longboy.Server.FromClients.{ReceiverSession, ClientToServerReceiver}

-- What is behind the removal of all addresses of a session.
pub forgotten :
    (f : Mirroring → Option ℕ) (map : Map) (a i : ℕ)
    → foldl forget map (each f) a ≡ some i
    → ((m : Mirroring) → f m ≢ some a) × (map a ≡ some i)
forgotten f map a i e =
    let (third, e2) = forget-some (f voice) a i _ e in
    let (second, e1) = forget-some (f background) a i _ e2 in
    let (first, e0) = forget-some (f audio_video) a i map e1 in (each_of first second third, e0)
  where
    each_of :
        f audio_video ≢ some a
        → f background ≢ some a
        → f voice ≢ some a
        → (m : Mirroring) → f m ≢ some a
    each_of x y z audio_video = x
    each_of x y z background = y
    each_of x y z voice = z

-- The session's receiver is in range and waits.
abbrev pub IsReady : Constants → {K : Type 0} → ReceiverSession K → Type 0
IsReady k s = InRange k s.receiver × IsWaiting k s.receiver

-- A socket address leads to a session that has it.
abbrev pub Addressed : {K : Type 0} (arena : Arena (ReceiverSession K)) → arena.Table → Map → Type 0
Addressed {K} arena sessions map =
    (a i : ℕ)
    → map a ≡ some i
    → (s : ReceiverSession K) × (arena.get i sessions ≡ some s)
      × (m : Mirroring) × (s.socket_addrs m ≡ some a)

module _ (k : Constants) {K : Type 0} (arena : Arena (ReceiverSession K)) {F : Type 0} where
  -- Each entry of the maps leads to a session that is there; no two ids share a session; a socket
  -- address leads to a session that has it; and the sessions' receivers are in range and wait.
  pub record Sound (t : ClientToServerReceiver arena F) : Type 0 where
    pub indexed : Indexed arena t.sessions t.session_id_to_session_map
    pub addrs : Addressed arena t.sessions t.socket_addr_to_session_map
    pub receivers : Each arena (IsReady k) t.sessions

  -- A new session.
  pub inserted :
      (t : ClientToServerReceiver arena F) (session : ReceiverSession K) (id : ℕ) (sink_factory : F)
      → Sound t
      → t.session_id_to_session_map id ≡ none
      → IsReady k session
      → Sound (record t {
        sessions = (arena.insert session t.sessions).1;
        session_id_to_session_map =
            insert id (arena.insert session t.sessions).0 t.session_id_to_session_map;
        sink_factory = sink_factory;
      })
  inserted t session id sink_factory h unknown ready = record {
    indexed =
        Indexed-insert arena session t.sessions t.session_id_to_session_map id h.indexed unknown;
    addrs = λ a i e.
        let (s, there, m, has) = h.addrs a i e in
        (s, get-insert arena session t.sessions i s there, m, has);
    receivers = Each-insert arena session t.sessions (IsReady k) h.receivers ready;
  }

  -- A change of the session at `index`.
  pub updated :
      (t : ClientToServerReceiver arena F) (index : ℕ) (old session : ReceiverSession K) (map : Map)
      → Sound t
      → arena.get index t.sessions ≡ some old
      → IsReady k session
      → Addressed arena (arena.update index session t.sessions) map
      → Sound (record t {
        sessions = arena.update index session t.sessions;
        socket_addr_to_session_map = map;
      })
  updated t index old session map h there ready mapped = record {
    indexed =
        Indexed-update arena index t.sessions old session there t.session_id_to_session_map
          h.indexed;
    addrs = mapped;
    receivers = Each-update arena index t.sessions old session there (IsReady k) h.receivers ready;
  }
