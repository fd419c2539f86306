-- ===== src/Client/ToServer/Laws.antt =====
-- What one poll of the client's sender puts on the network.
use longboy.Prelude.{
  ℕ, ◌+◌, ◌≤◌, ◌<◌, ◌^◌, ◌≡◌, refl, ◌∙◌, ap, arith, true, Option, none, some, List, [], ◌++◌,
  length, get_or, leb, inl, inr, Bool-cases, if◌then◌else◌,
}
use longboy.Prelude.Slices.{slice}
use longboy.Prelude.Bytes.{to_le_bytes, from_le_bytes}
use longboy.Proto.Constants.{Constants}
use longboy.Proto.Cipher.{Rc5}
use longboy.Proto.Sender.{Source, poll_datagram}
use longboy.Effects.{
  Mirroring, audio_video, background, voice, into_usize, Packet, Env, Outcome, done, panic, after,
  ◌>>=◌, Takes, send_all, send_all_lem, add_u16, add_u16_lem,
}
use longboy.Client.ToServer.{ClientToServerSender, each, heartbeat_bytes, heartbeat, mirror, poll}

-- A mapper reads back from a heartbeat the session and the socket that it left by: nine bytes,
-- the session in the first eight, the number of the variant in the ninth, for any session below 2
-- ^ 64.
pub heartbeat_bytes_decode :
    (session_id : ℕ) (m : Mirroring)
    → session_id < 2 ^ 64
    → (length (heartbeat_bytes session_id m) ≡ 9)
      × (from_le_bytes (slice (heartbeat_bytes session_id m) 0 8) ≡ session_id)
      × (get_or (heartbeat_bytes session_id m) 8 0 ≡ into_usize m)
unfolding heartbeat_bytes into_usize to_le_bytes from_le_bytes
heartbeat_bytes_decode session_id audio_video h = (refl, omega arith, refl)
heartbeat_bytes_decode session_id background h = (refl, omega arith, refl)
heartbeat_bytes_decode session_id voice h = (refl, omega arith, refl)

module _ {S : Type 0} where
  -- The heartbeats of one round, one by each socket, and the copies of a datagram.
  abbrev pub beats : ClientToServerSender S → List Packet
  beats t = each λ m. record {
    socket = t.sockets m;
    to = t.mapper_socket_addr;
    bytes = heartbeat_bytes t.session_id m;
  }

  abbrev pub copies : ClientToServerSender S → Option (List ℕ) → List Packet
  copies t none = []
  copies t (some datagram) =
      each λ m. record { socket = t.sockets m; to = t.socket_addr; bytes = datagram }

  -- What a poll at `timestamp` owes the mapper, and when the next heartbeat is due behind it.
  abbrev pub due : ClientToServerSender S → ℕ → List Packet
  due t timestamp = if leb t.next_heartbeat timestamp then beats t else []

  abbrev pub next_due : ClientToServerSender S → ℕ → ℕ
  next_due t timestamp =
      if leb t.next_heartbeat timestamp then timestamp + t.heartbeat_period else t.next_heartbeat

module _ (env : Env) where
  Takes-send_all :
      {A : Type 0} (ps : List Packet) (f : Unit {0} → Outcome A)
      → Takes env ps
      → (send_all env ps >>= f) ≡ after ps (f tt)
  Takes-send_all ps f h = rw (send_all_lem env ps h)

  add_u16-overflow :
      (a b : ℕ) → env.overflow_checks ≡ true → 2 ^ 16 ≤ a + b → add_u16 env a b ≡ panic
  unfolding add_u16
  add_u16-overflow a b checks large =
      let over : leb (2 ^ 16) (a + b) ≡ true = ground arith in rw (checks, over)

module _ (env : Env) {S : Type 0} where
  heartbeat_lem :
      (t : ClientToServerSender S) (timestamp : ℕ)
      → timestamp + t.heartbeat_period < 2 ^ 16
      → Takes env (due t timestamp)
      → heartbeat env t timestamp
        ≡ done (record t { next_heartbeat = next_due t timestamp }) (due t timestamp)
  unfolding heartbeat
  heartbeat_lem t timestamp small takes = elim (Bool-cases (leb t.next_heartbeat timestamp)) [
    | inl now ↦
        let takes' : Takes env (beats t) = rw now at takes in
        rw now (
          Takes-send_all env (beats t) _ takes'
          ∙ ap (λ m. after (beats t) (m >>= λ next. done (record t { next_heartbeat = next }) []))
              (add_u16_lem env timestamp t.heartbeat_period small))
    | inr later ↦ rw later
  ]

  mirror_lem :
      (t : ClientToServerSender S) (datagram : Option (List ℕ))
      → Takes env (copies t datagram)
      → mirror env t datagram ≡ done t (copies t datagram)
  unfolding mirror
  mirror_lem t none h = refl
  mirror_lem t (some datagram) h = Takes-send_all env (copies t (some datagram)) _ h

  -- A build that checks for overflow panics in the first poll that is due after
  -- `u16::MAX - heartbeat_period` milliseconds, when the heartbeats themselves have been sent.
  heartbeat-overflow :
      (t : ClientToServerSender S) (timestamp : ℕ)
      → env.overflow_checks ≡ true
      → leb t.next_heartbeat timestamp ≡ true
      → 2 ^ 16 ≤ timestamp + t.heartbeat_period
      → Takes env (beats t)
      → heartbeat env t timestamp ≡ panic
  unfolding heartbeat
  heartbeat-overflow t timestamp checks now large takes = rw now (
      Takes-send_all env (beats t) _ takes
      ∙ ap (λ m. after (beats t) (m >>= λ next. done (record t { next_heartbeat = next }) []))
          (add_u16-overflow env timestamp t.heartbeat_period checks large))

module _ (rc5 : Rc5) (k : Constants) {S : Type 0} (source : Source k.size S) (env : Env) where
  -- One poll of the client's sender, on a network that takes the packets and with no overflow of
  -- the clock: if a heartbeat is due, one goes to the mapper by each of the three sockets and the
  -- next is due a period later; then the sender is polled, and its datagram, if there is one,
  -- goes to the peer by each of the three sockets. Nothing else changes and nothing else is sent.
  pub poll_lem :
      (t : ClientToServerSender S) (timestamp : ℕ)
      → timestamp + t.heartbeat_period < 2 ^ 16
      → Takes env (due t timestamp)
      → let (sender, datagram) = poll_datagram rc5 k source t.sender timestamp in
        Takes env (copies t datagram)
        → poll rc5 k source env t timestamp
          ≡ done
              (record t { next_heartbeat = next_due t timestamp; sender = sender })
              (due t timestamp ++ copies t datagram)
  unfolding poll
  poll_lem t timestamp small owed taken =
      let (sender, datagram) = poll_datagram rc5 k source t.sender timestamp in
      rw (heartbeat_lem env t timestamp small owed) (
        ap (after (due t timestamp)) (
          mirror_lem env (record t { next_heartbeat = next_due t timestamp; sender = sender })
            datagram taken))

  -- A build that checks for overflow panics in a poll whose heartbeat is due when the clock is
  -- less than a period before the end of its 16 bits, although the network takes every heartbeat.
  pub poll-overflow :
      (t : ClientToServerSender S) (timestamp : ℕ)
      → env.overflow_checks ≡ true
      → t.next_heartbeat ≤ timestamp
      → 2 ^ 16 ≤ timestamp + t.heartbeat_period
      → Takes env (beats t)
      → poll rc5 k source env t timestamp ≡ panic
  unfolding poll
  poll-overflow t timestamp checks now large takes =
      rw (heartbeat-overflow env t timestamp checks (ground arith) large takes)
