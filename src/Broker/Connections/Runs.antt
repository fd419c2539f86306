-- ===== src/Broker/Connections/Runs.antt =====
-- All connections of a server, from its start on.
use longboy.Prelude.{
  ℕ, suc, ◌+◌, ◌^◌, ◌≤◌, ◌<◌, ◌≡◌, refl, subst, arith, false, Option, some, List, [], ◌∷◌, ◌++◌,
  map, length, min, ℕ_discrete,
}
use longboy.Handshake.{SendStream}
use longboy.Server.{ServerSessionEvent}
use longboy.Server.Events.{Once}
use longboy.Server.Registry.{Server, contains_key}
use longboy.Server.Registry.Streams.{Calls, stop, Calls-Once}
use longboy.Broker
use longboy.Broker.{SessionBroker}
use longboy.Broker.Connections.{Service, serve}
use longboy.Broker.Connections.Seats.{Serving}
use longboy.Broker.Connections.Handling.{server_handle_connection-Handled, full}

module _ {G : Type 0} (max : ℕ) (next_key : G → Option (ℕ × G)) where
  -- What connections do to a service with `j` seats taken.
  pub record Served (j : ℕ) (s : Service G) (conns : List SendStream) : Type 0 where
    pub after : Service G
    pub result : serve next_key conns s ≡ some after
    pub serving : Serving max (min max (j + length conns)) after
    pub events : List ServerSessionEvent
    pub calls : Calls s.server events after.server

  serve-Served :
      (j : ℕ) (s : Service G) (conns : List SendStream)
      → ((g : G) → (key : ℕ) × (g' : G) × (next_key g ≡ some (key, g')))
      → max + 1 < 2 ^ 64
      → Serving max j s
      → Served j s conns
  unfolding serve
  serve-Served j s [] endless small h = record {
    after = s;
    result = refl;
    serving =
        let e : j ≡ min max (j + 0) = omega (arith, h.within) in
        subst (λ (n : ℕ). Serving max n s) e h;
    events = [];
    calls = stop;
  }
  serve-Served j s (conn ∷ conns) endless small h = elim (ℕ_discrete j max) [
    | yes last ↦
        let h' : Serving max max s = subst (λ (n : ℕ). Serving max n s) last h in
        let rest = serve-Served j s conns endless small h in
        let e : min max (j + length conns) ≡ min max (j + suc (length conns)) = omega arith in
        record {
          after = rest.after;
          result = rw (serve, full max next_key s conn h') rest.result;
          serving = subst (λ (n : ℕ). Serving max n rest.after) e rest.serving;
          events = rest.events;
          calls = rest.calls;
        }
    | no room ↦
        let one =
          server_handle_connection-Handled max next_key j s conn endless small h
            (omega (arith, h.within)) in
        let rest = serve-Served (suc j) one.after conns endless small one.serving in
        let e : min max (suc j + length conns) ≡ min max (j + suc (length conns)) = omega arith in
        let (events, calls) = one.calls rest.calls in
        record {
          after = rest.after;
          result = rw (serve, one.result) rest.result;
          serving = subst (λ (n : ℕ). Serving max n rest.after) e rest.serving;
          events = events;
          calls = calls;
        }
  ]

  new-Serving :
      (g : G) (server : Server)
      → server.sessions ≡ []
      → max ≤ server.capacity
      → Serving max 0 (record { broker = Broker.new max; server = server; keygenerator = g })
  unfolding Broker.new contains_key
  new-Serving g server none_yet capacity = record {
    within = omega arith;
    m = max;
    seats = omega arith;
    seated = refl;
    numbered = refl;
    players = λ id lt. absurd (omega arith);
    no_zero = rw none_yet refl;
    fresh = λ id lt. rw none_yet refl;
    few = rw none_yet (omega arith);
    capacity = capacity;
  }

  -- A server's program with a new broker of max seats and no session, whose map has room for max
  -- sessions, with a key generator that never runs out: whatever connections come in, however
  -- many, and whichever handshakes fail, it does not panic. Afterwards as many seats are taken as
  -- there were connections, at most max, failed ones included; sessions are numbered by their
  -- seats and lead to their players; and each channel has been sent the same events, among which
  -- each session is connected only when it is not known.
  pub serve_from_new :
      (g : G) (server : Server) (conns : List SendStream)
      → ((g' : G) → (key : ℕ) × (g'' : G) × (next_key g' ≡ some (key, g'')))
      → max + 1 < 2 ^ 64
      → server.sessions ≡ []
      → max ≤ server.capacity
      → (after : Service G) × (events : List ServerSessionEvent) × (serve next_key conns
            (record { broker = Broker.new max; server = server; keygenerator = g })
          ≡ some after)
        × Serving max (min max (length conns)) after
        × Once (λ id. false) events
        × (after.server.session_senders ≡ map (λ channel. channel ++ events) server.session_senders)
  unfolding contains_key
  serve_from_new g server conns endless small none_yet capacity =
      let served = serve-Served 0 _ conns endless small (new-Serving g server none_yet capacity) in
      let (once, sent) = Calls-Once served.calls in
      let e : min max (0 + length conns) ≡ min max (length conns) = omega arith in
      (
        served.after,
        served.events,
        served.result,
        subst (λ (n : ℕ). Serving max n served.after) e served.serving,
        subst (λ entries. Once (λ id. contains_key id entries) served.events) none_yet once,
        sent,
      )
