-- ===== src/Runtimes/Tokio/Cancel.antt =====
-- What happens in a TokioRuntime whose token is cancelled.
use longboy.Prelude.{
  ℕ, zero, suc, ◌-◌, ◌%◌, ◌^◌, ◌≡◌, refl, sym, ◌∙◌, ap, Bool, true, false, Option, none, some, List,
  [], ◌∷◌, ◌++◌, subst, inl, inr, Option-cases, set, get_or, get_or-set_ne, ℕ_discrete, ==_of,
  ==_ne, if◌then◌else◌,
}
use longboy.Effects.{Packet, Outcome, done, panic}
use longboy.Runtimes.{tokio_timestamps, run}
use longboy.Runtimes.Tokio.{
  JoinHandle, spawned, looping, finished, panicked, TokioRuntime, Wake, Event, wake, cancel,
  Selected, ticked, stopped, pending, select, polled, proceed, turn, turns,
}
use longboy.Runtimes.Tokio.Isolation.{own, sent_by, after-eq-done, Outcome-cases}

-- The tick that `select!` takes on a turn, and not the token.
abbrev taken : Wake → Option ℕ
taken w = if w.picks_tick then w.tick else none

abbrev then_taken : Option ℕ → List ℕ → List ℕ
then_taken none later = []
then_taken (some tick) later = tick ∷ later

-- The ticks that are taken before the token is.
abbrev pub ticks_before : List Wake → List ℕ
ticks_before [] = []
ticks_before (w ∷ ws) = then_taken (taken w) (ticks_before ws)

abbrev or_later : Option ℕ → Bool → Bool
or_later none later = true
or_later (some tick) later = later

-- On one of the turns the token is taken.
abbrev pub stops : List Wake → Bool
stops [] = false
stops (w ∷ ws) = or_later (taken w) (stops ws)

module _ {T : Type 0} (poll : T → ℕ → Outcome T) where
  abbrev solo : JoinHandle T → List Wake → JoinHandle T × List Packet
  solo h [] = (h, [])
  solo h (w ∷ ws) =
      let (h', _, packets) = turn poll true w h in
      let (last, more) = solo h' ws in (last, packets ++ more)

  solo-finished : (ws : List Wake) → solo finished ws ≡ (finished, [])
  unfolding turn
  solo-finished [] = refl
  solo-finished (w ∷ ws) = solo-finished ws

  abbrev selected : Option ℕ → Selected
  selected none = stopped
  selected (some tick) = ticked tick

  select-true :
      (picks_tick : Bool) (tick : Option ℕ)
      → select true picks_tick tick ≡ selected (if picks_tick then tick else none)
  unfolding select
  select-true true none = refl
  select-true true (some tick) = refl
  select-true false none = refl
  select-true false (some tick) = refl

  proceed-true :
      (task : T) (instant : ℕ) (s : Selected) → (proceed poll true task instant s).1 ≡ true
  unfolding proceed
  proceed-true task instant (ticked tick) = lemma (poll task ((tick - instant) % 2 ^ 16))
    where
      lemma : (o : Outcome T) → (polled poll true tick o).1 ≡ true
      lemma (done task packets) = refl
      lemma panic = refl
  proceed-true task instant stopped = refl
  proceed-true task instant pending = refl

  turn-true : (w : Wake) (h : JoinHandle T) → (turn poll true w h).1 ≡ true
  unfolding turn
  turn-true w (spawned task) = proceed-true task w.now _
  turn-true w (looping task instant) = proceed-true task instant _
  turn-true w finished = refl
  turn-true w panicked = refl

  get_or-turn :
      (w : Wake) (handles : List (JoinHandle T)) (i : ℕ)
      → get_or (set handles i (turn poll true w (get_or handles i finished)).0) i finished
        ≡ (turn poll true w (get_or handles i finished)).0
  unfolding turn
  get_or-turn w [] i = refl
  get_or-turn w (h ∷ handles) zero = refl
  get_or-turn w (h ∷ handles) (suc i) = get_or-turn w handles i

  turns-solo :
      (schedule : List Event) (handles : List (JoinHandle T)) (i : ℕ)
      → let (last, log) = turns poll schedule (record { handles = handles; cancelled = true }) in
        (get_or last.handles i finished ≡ (solo (get_or handles i finished) (own i schedule)).0)
        × (sent_by i log ≡ (solo (get_or handles i finished) (own i schedule)).1)
        × (last.cancelled ≡ true)
  unfolding turns
  turns-solo [] handles i = (refl, refl, refl)
  turns-solo (cancel ∷ schedule) handles i = turns-solo schedule handles i
  turns-solo (wake j w ∷ schedule) handles i =
      let handle = (turn poll true w (get_or handles j finished)).0 in
      let rest = turns-solo schedule (set handles j handle) i in
      elim (ℕ_discrete i j) [
        | yes same ↦
            let reached : get_or (set handles j handle) i finished ≡ handle =
              rw same (get_or-turn w handles j) in
            let (state, sent, token) = rw reached at rest in
            let here : get_or handles i finished ≡ get_or handles j finished = rw same in
            rw (here, ==_of i j same, turns, turn-true w (get_or handles j finished))
              (state, ap (◌++◌ (turn poll true w (get_or handles j finished)).2) sent, token)
        | no other ↦
            rw (==_ne i j other, turns, turn-true w (get_or handles j finished))
              (rw (← get_or-set_ne handles j i handle finished (λ e. other (sym e))) rest)
      ]

  solo-stops :
      (ws : List Wake) (task : T) (instant : ℕ) (last : T) (packets : List Packet)
      → stops ws ≡ true
      → run poll task (tokio_timestamps instant (ticks_before ws)) ≡ done last packets
      → solo (looping task instant) ws ≡ (finished, packets)
  unfolding run tokio_timestamps turn proceed
  solo-stops [] task instant last packets ends e = absurd (cc ends)
  solo-stops (w ∷ ws) task instant last packets ends e = elim (Option-cases (taken w)) [
    | inl token ↦
        let e' = rw (token, run, tokio_timestamps) at e in
        let nothing : [] ≡ packets = cc e' in
        rw (select-true w.picks_tick w.tick, token, solo-finished ws, nothing) refl
    | inr (tick, ready) ↦
        let ends' = rw ready at ends in
        elim (Outcome-cases poll (poll task ((tick - instant) % 2 ^ 16))) [
          | inl (task', sent, polls) ↦
              let e' = rw (ready, run, tokio_timestamps, polls) at e in
              let (more, rest, all) =
                after-eq-done poll sent (run poll task' (tokio_timestamps tick (ticks_before ws)))
                  last packets e' in
              rw
                (
                  select-true w.picks_tick w.tick,
                  ready,
                  polls,
                  solo-stops ws task' tick last more ends' rest,
                  all,
                )
                refl
          | inr panics ↦ let e' = rw (ready, run, tokio_timestamps, panics) at e in cc e'
        ]
  ]

  -- In a TokioRuntime whose token is cancelled, whatever the other tasks do, and in whatever
  -- order the tasks take their turns: a task that is in its loop, takes the token in select! on
  -- one of its turns, and does not panic on the timestamps between the ticks that it takes
  -- before, comes to the end of its loop, and has sent exactly the packets of the polls with
  -- these timestamps, however many turns follow.
  pub turns-cancelled :
      (runtime : TokioRuntime T) (schedule : List Event) (i : ℕ) (task last : T) (instant : ℕ)
      (packets : List Packet)
      → runtime.cancelled ≡ true
      → get_or runtime.handles i finished ≡ looping task instant
      → stops (own i schedule) ≡ true
      → run poll task (tokio_timestamps instant (ticks_before (own i schedule))) ≡ done last packets
      → let (runtime', log) = turns poll schedule runtime in
        (get_or runtime'.handles i finished ≡ finished) × (sent_by i log ≡ packets)
  turns-cancelled runtime schedule i task last instant packets down here ends e =
      let (state, sent, _) = turns-solo schedule runtime.handles i in
      let alone = solo-stops (own i schedule) task instant last packets ends e in
      let whole : solo (get_or runtime.handles i finished) (own i schedule) ≡ (finished, packets) =
        rw here alone in
      subst
        (λ c.
          let (runtime', log) =
            turns poll schedule (record { handles = runtime.handles; cancelled = c }) in
          (get_or runtime'.handles i finished ≡ finished) × (sent_by i log ≡ packets))
        (sym down) (state ∙ ap (λ o. o.0) whole, sent ∙ ap (λ o. o.1) whole)
