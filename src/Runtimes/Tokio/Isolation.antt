-- ===== src/Runtimes/Tokio/Isolation.antt =====
-- A task of a TokioRuntime among the others.
use longboy.Prelude.{
  ℕ, zero, suc, ◌-◌, ◌%◌, ◌^◌, ◌≡◌, ◌≢◌, refl, sym, ◌∙◌, ap, Bool, true, false, Option, none, some,
  List, [], ◌∷◌, Option-cases, inl, inr, ◌⊎◌, arith, subst, not, ◌++◌, set, get_or, get_or-set_ne,
  ℕ_discrete, ◌==◌, ==_of, ==_ne, if◌then◌else◌,
}
use longboy.Effects.{Packet, Outcome, done, panic, after}
use longboy.Runtimes.{tokio_timestamps, run}
use longboy.Runtimes.Tokio.{
  JoinHandle, running, spawned, looping, finished, panicked, TokioRuntime, Wake, Event, wake,
  cancel, Selected, ticked, stopped, pending, select, polled, proceed, turn, turns,
}

-- Nobody cancels the token.
abbrev pub Uncancelled : List Event → Type 0
Uncancelled [] = Unit {0}
Uncancelled (cancel ∷ schedule) = ⊥
Uncancelled (wake i w ∷ schedule) = Uncancelled schedule

-- The turns of the task at `i`.
abbrev pub own : ℕ → List Event → List Wake
own i [] = []
own i (cancel ∷ schedule) = own i schedule
own i (wake j w ∷ schedule) = if i == j then w ∷ own i schedule else own i schedule

-- The ticks that these turns found.
abbrev with_tick : Option ℕ → List ℕ → List ℕ
with_tick none later = later
with_tick (some tick) later = tick ∷ later

abbrev pub ticks : List Wake → List ℕ
ticks [] = []
ticks (w ∷ ws) = with_tick w.tick (ticks ws)

-- The `instant` behind these ticks.
abbrev pub last_tick : ℕ → List ℕ → ℕ
last_tick instant [] = instant
last_tick instant (tick ∷ later) = last_tick tick later

-- What the task at `i` has sent.
abbrev pub sent_by : ℕ → List (ℕ × List Packet) → List Packet
sent_by i [] = []
sent_by i ((j, packets) ∷ log) = if i == j then packets ++ sent_by i log else sent_by i log

module _ {T : Type 0} (poll : T → ℕ → Outcome T) where
  -- The task alone.
  abbrev solo : JoinHandle T → List Wake → JoinHandle T × List Packet
  solo h [] = (h, [])
  solo h (w ∷ ws) =
      let (h', _, packets) = turn poll false w h in
      let (last, more) = solo h' ws in (last, packets ++ more)

  proceed-looping :
      (task : T) (instant : ℕ) (w : Wake) (tick : ℕ) (task' : T) (packets : List Packet)
      → w.tick ≡ some tick
      → poll task ((tick - instant) % 2 ^ 16) ≡ done task' packets
      → proceed poll false task instant (select false w.picks_tick w.tick)
        ≡ (looping task' tick, false, packets)
  unfolding proceed select
  proceed-looping task instant w tick task' packets ready e = rw (ready, e)

  proceed-false :
      (task : T) (instant : ℕ) (s : Selected)
      → s ≢ stopped
      → (proceed poll false task instant s).1 ≡ false
  unfolding proceed
  proceed-false task instant (ticked tick) h = lemma (poll task ((tick - instant) % 2 ^ 16))
    where
      lemma : (o : Outcome T) → (polled poll false tick o).1 ≡ false
      lemma (done task packets) = refl
      lemma panic = refl
  proceed-false task instant stopped h = absurd (h refl)
  proceed-false task instant pending h = refl

  select-false : (picks_tick : Bool) (tick : Option ℕ) → select false picks_tick tick ≢ stopped
  unfolding select
  select-false picks_tick none e = cc e
  select-false picks_tick (some tick) e = cc e

  turn-false : (w : Wake) (h : JoinHandle T) → (turn poll false w h).1 ≡ false
  unfolding turn
  turn-false w (spawned task) = proceed-false task w.now _ (select-false w.picks_tick w.tick)
  turn-false w (looping task instant) =
      proceed-false task instant _ (select-false w.picks_tick w.tick)
  turn-false w finished = refl
  turn-false w panicked = refl

  get_or-turn :
      (w : Wake) (handles : List (JoinHandle T)) (i : ℕ)
      → get_or (set handles i (turn poll false w (get_or handles i finished)).0) i finished
        ≡ (turn poll false w (get_or handles i finished)).0
  unfolding turn
  get_or-turn w [] i = refl
  get_or-turn w (h ∷ handles) zero = refl
  get_or-turn w (h ∷ handles) (suc i) = get_or-turn w handles i

  turns-solo :
      (schedule : List Event) (handles : List (JoinHandle T)) (i : ℕ)
      → Uncancelled schedule
      → let (last, log) = turns poll schedule (record { handles = handles; cancelled = false }) in
        (get_or last.handles i finished ≡ (solo (get_or handles i finished) (own i schedule)).0)
        × (sent_by i log ≡ (solo (get_or handles i finished) (own i schedule)).1)
        × (last.cancelled ≡ false)
  unfolding turns
  turns-solo [] handles i h = (refl, refl, refl)
  turns-solo (cancel ∷ schedule) handles i h = elim h [ ]
  turns-solo (wake j w ∷ schedule) handles i h =
      let handle = (turn poll false w (get_or handles j finished)).0 in
      let rest = turns-solo schedule (set handles j handle) i h in
      elim (ℕ_discrete i j) [
        | yes same ↦
            let reached : get_or (set handles j handle) i finished ≡ handle =
              rw same (get_or-turn w handles j) in
            let (state, sent, open_token) = rw reached at rest in
            let here : get_or handles i finished ≡ get_or handles j finished = rw same in
            rw (here, ==_of i j same, turns, turn-false w (get_or handles j finished))
              (state, ap (◌++◌ (turn poll false w (get_or handles j finished)).2) sent, open_token)
        | no other ↦
            rw (==_ne i j other, turns, turn-false w (get_or handles j finished))
              (rw (← get_or-set_ne handles j i handle finished (λ e. other (sym e))) rest)
      ]

  pub after-eq-done :
      (ps : List Packet) (o : Outcome T) (last : T) (packets : List Packet)
      → after ps o ≡ done last packets
      → (more : List Packet) × (o ≡ done last more) × (packets ≡ ps ++ more)
  after-eq-done ps (done a qs) last packets e = (qs, cc e, cc e)
  after-eq-done ps panic last packets e = cc e

  pub Outcome-cases :
      (o : Outcome T)
      → ((task : T) × (packets : List Packet) × (o ≡ done task packets)) ⊎ (o ≡ panic)
  Outcome-cases (done task packets) = inl (task, packets, refl)
  Outcome-cases panic = inr refl

  solo-looping :
      (ws : List Wake) (task : T) (instant : ℕ) (last : T) (packets : List Packet)
      → run poll task (tokio_timestamps instant (ticks ws)) ≡ done last packets
      → solo (looping task instant) ws ≡ (looping last (last_tick instant (ticks ws)), packets)
  unfolding run tokio_timestamps turn proceed select
  solo-looping [] task instant last packets e = ground (arith)
  solo-looping (w ∷ ws) task instant last packets e = elim (Option-cases w.tick) [
    | inl none_yet ↦
        let e' = rw none_yet at e in rw (none_yet) (solo-looping ws task instant last packets e')
    | inr (tick, ready) ↦ elim (Outcome-cases (poll task ((tick - instant) % 2 ^ 16))) [
      | inl (task', sent, polls) ↦
          let e' = rw (ready, run, tokio_timestamps, polls) at e in
          let (more, ends, all) =
            after-eq-done sent (run poll task' (tokio_timestamps tick (ticks ws))) last packets
              e' in
          rw (ready, polls, solo-looping ws task' tick last more ends, all) refl
      | inr panics ↦ let e' = rw (ready, run, tokio_timestamps, panics) at e in cc e'
    ]
  ]

  -- As long as nobody cancels the token of a TokioRuntime, whatever the other tasks do, a panic
  -- of theirs included, and in whatever order the tasks take their turns: a task that has been
  -- spawned, takes a turn and does not panic on the timestamps between its own ticks, the first
  -- one counted from its first turn, is where these polls put it, has sent exactly their packets,
  -- and the runtime is running.
  pub turns-run :
      (runtime : TokioRuntime T) (schedule : List Event) (i : ℕ) (task last : T) (w : Wake)
      (ws : List Wake) (packets : List Packet)
      → running runtime ≡ true
      → Uncancelled schedule
      → get_or runtime.handles i finished ≡ spawned task
      → own i schedule ≡ w ∷ ws
      → run poll task (tokio_timestamps w.now (ticks (w ∷ ws))) ≡ done last packets
      → let (runtime', log) = turns poll schedule runtime in
        (running runtime' ≡ true)
        × (get_or runtime'.handles i finished ≡ looping last (last_tick w.now (ticks (w ∷ ws))))
        × (sent_by i log ≡ packets)
  unfolding running turn
  turns-run runtime schedule i task last w ws packets up open_token here its e =
      let (state, sent, token) = turns-solo schedule runtime.handles i open_token in
      let alone = solo-looping (w ∷ ws) task w.now last packets e in
      let whole : solo (get_or runtime.handles i finished) (own i schedule)
          ≡ (looping last (last_tick w.now (ticks (w ∷ ws))), packets) =
        rw (here, its) alone in
      let open_now : false ≡ runtime.cancelled = ground arith in
      subst
        (λ c.
          let (runtime', log) =
            turns poll schedule (record { handles = runtime.handles; cancelled = c }) in
          (not runtime'.cancelled ≡ true)
          × (get_or runtime'.handles i finished ≡ looping last (last_tick w.now (ticks (w ∷ ws))))
          × (sent_by i log ≡ packets))
        open_now (ap not token, state ∙ ap (λ o. o.0) whole, sent ∙ ap (λ o. o.1) whole)
