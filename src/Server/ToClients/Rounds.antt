-- ===== src/Server/ToClients/Rounds.antt =====
-- One round over all sessions, and one poll.
use longboy.Prelude.{
  ℕ, ◌≡◌, refl, sym, ◌∙◌, ap, Bool, true, false, Option, none, some, inl, inr, List, [], ◌∷◌, ◌++◌,
  replicate, Option-cases, ℕ_discrete, ==_self, ==_of, ==_ne, if◌then◌else◌,
}
use longboy.Proto.Constants.{Constants, IsValid}
use longboy.Proto.Cipher.{Rc5}
use longboy.Proto.Sender.{Source, poll_datagram}
use longboy.Proto.Sender.Refine.{poll_datagram-Carries}
use longboy.Effects.{Mirroring, SocketAddr, Packet, Env, done, ◌>>=◌, send_all_lem, all_taken}
use longboy.Client.ToServer.{each}
use longboy.Server.{ServerSessionEvent, Factory, Arena, Iter, member, IsOnce}
use longboy.Server.Events.{Once, known_after}
use longboy.Server.Sessions.{Indexed-update, Each-update}
use longboy.Server.ToClients.{
  SenderSession, ServerToClientSender, mirror, poll_each, poll_sessions, poll,
  poll_server_session_events, poll_for_client_socket_addresses,
}
use longboy.Server.ToClients.Sound.{IsCarrying, Sound, Ready, events-Ready, addresses-Ready}

-- The packets that carry a datagram to its session's address.
abbrev pub copies : (Mirroring → ℕ) → Option SocketAddr → Option (List ℕ) → List Packet
copies sockets (some addr) (some datagram) =
    each λ m. record { socket = sockets m; to = addr; bytes = datagram }
copies sockets none (some datagram) = []
copies sockets addr none = []

module _ (env : Env) (takes : (p : Packet) → env.send_to p ≡ true) where
  mirror_lem :
      (sockets : Mirroring → ℕ) (addr : Option SocketAddr) (datagram : Option (List ℕ))
      → mirror env sockets addr datagram ≡ done tt (copies sockets addr datagram)
  unfolding mirror
  mirror_lem sockets (some addr) (some datagram) =
      send_all_lem env _ (all_taken env takes (copies sockets (some addr) (some datagram)))
  mirror_lem sockets none (some datagram) = refl
  mirror_lem sockets (some addr) none = refl
  mirror_lem sockets none none = refl

module _ (rc5 : Rc5) (k : Constants) {S : Type 0} (source : Source k.size S) where
  -- What one session's poll leaves behind, and what it sends.
  abbrev pub polled : ℕ → Option (SenderSession S) → Option (SenderSession S)
  polled timestamp none = none
  polled timestamp (some s) =
      some (record s { sender = (poll_datagram rc5 k source s.sender timestamp).0 })

  abbrev pub owed : ℕ → (Mirroring → ℕ) → Option (SenderSession S) → List Packet
  owed timestamp sockets none = []
  owed timestamp sockets (some s) =
      copies sockets s.socket_addr (poll_datagram rc5 k source s.sender timestamp).1

  module _ (arena : Arena (SenderSession S)) where
    abbrev pub owed_all : ℕ → (Mirroring → ℕ) → arena.Table → List ℕ → List Packet
    owed_all timestamp sockets sessions [] = []
    owed_all timestamp sockets sessions (i ∷ indices) =
        owed timestamp sockets (arena.get i sessions) ++ owed_all timestamp sockets sessions indices

    -- A change at an index that is not visited again does not show.
    owed_all-update :
        (timestamp : ℕ) (sockets : Mirroring → ℕ) (index : ℕ) (s : SenderSession S)
        (sessions : arena.Table) (indices : List ℕ)
        → member index indices ≡ false
        → owed_all timestamp sockets (arena.update index s sessions) indices
          ≡ owed_all timestamp sockets sessions indices
    owed_all-update timestamp sockets index s sessions [] e = refl
    owed_all-update timestamp sockets index s sessions (i ∷ indices) e = elim (ℕ_discrete i index) [
      | yes same ↦ absurd (let e' = rw (same, ==_self index) at e in cc e')
      | no other ↦ rw (
        arena.get-update_ne index i s sessions (λ q. other (sym q)),
        owed_all-update timestamp sockets index s sessions indices
            (let e' = rw (==_ne i index other) at e in e'),
      )
    ]

module _ (rc5 : Rc5) {k : Constants} (v : IsValid k) {S : Type 0} (source : Source k.size S)
    (env : Env) (takes : (p : Packet) → env.send_to p ≡ true) (arena : Arena (SenderSession S))
    {F : Type 0} where
  -- What a round over `indices` leaves behind.
  pub record Round (t : ServerToClientSender arena F) (timestamp : ℕ) (indices : List ℕ)
      (t' : ServerToClientSender arena F) : Type 0 where
    pub sound : Sound rc5 v arena t'
    pub same_ids : t'.session_id_to_session_map ≡ t.session_id_to_session_map
    pub sessions :
        (i : ℕ)
        → arena.get i t'.sessions ≡ (
            if member i indices
            then polled rc5 k source timestamp (arena.get i t.sessions)
            else arena.get i t.sessions)

  poll_each_lem :
      (indices : List ℕ) (t : ServerToClientSender arena F) (timestamp : ℕ)
      → Sound rc5 v arena t
      → IsOnce indices
      → (t' : ServerToClientSender arena F) × (poll_each arena rc5 k source env t timestamp indices
          ≡ done t' (owed_all rc5 k source arena timestamp t.sockets t.sessions indices))
        × Round t timestamp indices t'
  unfolding poll_each
  poll_each_lem [] t timestamp sound once =
      (t, refl, record { sound = sound; same_ids = refl; sessions = λ i. refl })
  poll_each_lem (index ∷ indices) t timestamp sound once =
      elim (Option-cases (arena.get index t.sessions)) [
        | inl empty ↦
            let (t', e, r) = poll_each_lem indices t timestamp sound once.1 in
            (
              t',
              rw (poll_each, empty, e),
              record {
                sound = r.sound;
                same_ids = r.same_ids;
                sessions = λ i. elim (ℕ_discrete index i) [
                  | yes same ↦
                      let unseen : member i indices ≡ false = rw (← same) once.0 in
                      let gone : arena.get i t.sessions ≡ none = rw (← same) empty in
                      rw (==_of index i same, gone) (r.sessions i ∙ rw (unseen, gone))
                  | no other ↦ rw (==_ne index i other) (r.sessions i)
                ];
              },
            )
        | inr (s, there) ↦
            let next : SenderSession S = record s {
              sender = (poll_datagram rc5 k source s.sender timestamp).0;
            } in
            let mid : ServerToClientSender arena F = record t {
              sessions = arena.update index next t.sessions;
            } in
            let (ps, lead, carries) = sound.carrying index s there in
            let kept : Sound rc5 v arena mid = record {
              indexed =
                  Indexed-update arena index t.sessions s next there t.session_id_to_session_map
                    sound.indexed;
              carrying =
                  Each-update arena index t.sessions s next there (IsCarrying rc5 v arena)
                    sound.carrying
                    (_, _, poll_datagram-Carries rc5 v source s.sender timestamp ps lead carries);
            } in
            let (t', e, r) = poll_each_lem indices mid timestamp kept once.1 in
            let rest =
              e
              ∙ ap (done t') (
                  owed_all-update rc5 k source arena timestamp t.sockets index next t.sessions
                    indices once.0) in
            (
              t',
              rw (
                poll_each,
                there,
                mirror_lem env takes t.sockets s.socket_addr
                    (poll_datagram rc5 k source s.sender timestamp).1,
                rest,
              ),
              record {
                sound = r.sound;
                same_ids = r.same_ids;
                sessions = λ i. elim (ℕ_discrete index i) [
                  | yes same ↦
                      let unseen : member i indices ≡ false = rw (← same) once.0 in
                      let here : arena.get i t.sessions ≡ some s = rw (← same) there in
                      let now : arena.get i (arena.update index next t.sessions) ≡ some next =
                        rw (← same) (arena.get-update_self index s next t.sessions there) in
                      rw (==_of index i same, here) (r.sessions i ∙ rw (unseen, now))
                  | no other ↦
                      let past = arena.get-update_ne index i next t.sessions other in
                      rw (==_ne index i other) (r.sessions i ∙ rw past)
                ];
              },
            )
      ]

  -- The round of the server's sending task over its sessions, in a sound state, on a network that
  -- takes the packets: the sender of each session in the arena is polled exactly once, no other
  -- session is touched, and the packets are exactly those owed, in the order of the arena: for
  -- each session that has a datagram and an address, one copy by each of the three sockets to
  -- that address. The state is sound again.
  pub poll_sessions_lem :
      (iter : Iter arena) (t : ServerToClientSender arena F) (timestamp : ℕ)
      → Sound rc5 v arena t
      → (t' : ServerToClientSender arena F) × (poll_sessions arena rc5 k source env iter t timestamp
          ≡ done t' (
              owed_all rc5 k source arena timestamp t.sockets t.sessions (iter.indices t.sessions)))
        × Sound rc5 v arena t'
        × (t'.session_id_to_session_map ≡ t.session_id_to_session_map)
        × ((i : ℕ)
            → arena.get i t'.sessions ≡ polled rc5 k source timestamp (arena.get i t.sessions))
  unfolding poll_sessions
  poll_sessions_lem iter t timestamp sound =
      let (t', e, r) =
        poll_each_lem (iter.indices t.sessions) t timestamp sound (iter.once t.sessions) in
      (
        t',
        e,
        r.sound,
        r.same_ids,
        λ i. elim (Option-cases (arena.get i t.sessions)) [
          | inl gone ↦ rw gone (r.sessions i ∙ rw (iter.dead i t.sessions gone, gone))
          | inr (s, there) ↦ rw there (r.sessions i ∙ rw (iter.live i s t.sessions there, there))
        ],
      )

  -- What a poll comes to: the task behind events and mappings, the packets that its sessions owe,
  -- and the task behind the round.
  pub record Polled (iter : Iter arena) (factory : Factory F S) (t : ServerToClientSender arena F)
      (timestamp : ℕ) (events : List ServerSessionEvent) (mappings : List (List ℕ × SocketAddr))
      (known : ℕ → Bool) : Type 0 where
    pub mapped : ServerToClientSender arena F
    pub before :
        (poll_server_session_events arena k factory t events >>= λ u.
        poll_for_client_socket_addresses arena u mappings (replicate 64 0))
        ≡ done mapped []
    pub last : ServerToClientSender arena F
    pub polls :
        poll arena rc5 k source env iter factory t timestamp events mappings
        ≡ done last (
            owed_all rc5 k source arena timestamp mapped.sockets mapped.sessions
              (iter.indices mapped.sessions))
    pub ready : Ready rc5 v arena known last

  -- One poll of the server's sending task, on a network that takes the packets, in a sound state
  -- that holds the known sessions, where each session is connected when it is not known and
  -- disconnected when it is: whatever arrives on the mapper's socket, it comes to its end without
  -- a panic, sends what its sessions owe behind the events and mappings and nothing else, and is
  -- sound again and holds the sessions that are known then.
  pub poll-Polled :
      (iter : Iter arena) (factory : Factory F S) (known : ℕ → Bool)
      (t : ServerToClientSender arena F) (timestamp : ℕ) (events : List ServerSessionEvent)
      (mappings : List (List ℕ × SocketAddr))
      → Ready rc5 v arena known t
      → Once known events
      → Polled iter factory t timestamp events mappings (known_after known events)
  unfolding poll
  poll-Polled iter factory known t timestamp events mappings h once =
      let (t1, e1, h1) = events-Ready rc5 v arena factory events known t h once in
      let (t2, e2, h2) =
        addresses-Ready rc5 v arena mappings (replicate 64 0) (known_after known events) t1 h1 in
      let (t3, e3, sound, same, _) = poll_sessions_lem iter t2 timestamp h2.0 in
      record {
        mapped = t2;
        before = rw (e1, e2);
        last = t3;
        polls = rw (poll, e1, e2, e3);
        ready = (sound, rw same h2.1);
      }
