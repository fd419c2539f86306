-- ===== src/Runtimes/Threads/Steps.antt =====
-- What one thread does behind a cancellation, among the steps of the others.
use longboy.Prelude.{
  ℕ, zero, suc, ◌≤◌, ◌≡◌, refl, sym, ap, arith, true, List, [], ◌∷◌, ◌++◌, length, set, get_or,
  length-set, get_or-set_ne, append-nil, ℕ_discrete, ◌∙◌, ◌==◌, ==_of, ==_ne, if◌then◌else◌,
}
use longboy.Effects.{Packet, Outcome, done, panic}
use longboy.Runtimes.Threads.{Handle, looping, polling, finished, panicked, polled, turn, turns}

-- The times of the steps of the thread at `i`.
abbrev pub own : ℕ → List (ℕ × ℕ) → List ℕ
own i [] = []
own i ((j, timestamp) ∷ schedule) = if i == j then timestamp ∷ own i schedule else own i schedule

-- The first of these times.
abbrev pub first : List ℕ → ℕ
first [] = 0
first (timestamp ∷ times) = timestamp

-- What the thread at `i` has sent.
abbrev pub sent_by : ℕ → List (ℕ × List Packet) → List Packet
sent_by i [] = []
sent_by i ((j, packets) ∷ log) = if i == j then packets ++ sent_by i log else sent_by i log

module _ {T : Type 0} (poll : T → ℕ → Outcome T) where
  -- The end of a poll that was under way.
  abbrev pub ended : Outcome T → Handle T × List Packet
  ended (done task packets) = (finished, packets)
  ended panic = (panicked, [])

  -- How a thread ends behind a cancellation: it comes to the end of the poll that it is in, whose
  -- timestamp this is, and polls no more.
  abbrev pub finish : ℕ → Handle T → Handle T × List Packet
  finish timestamp (looping task) = (finished, [])
  finish timestamp (polling task) = ended (poll task timestamp)
  finish timestamp finished = (finished, [])
  finish timestamp panicked = (panicked, [])

  -- The thread alone.
  abbrev solo : Handle T → List ℕ → Handle T × List Packet
  solo h [] = (h, [])
  solo h (timestamp ∷ times) =
      let (h', _, packets) = turn poll true timestamp h in
      let (last, more) = solo h' times in (last, packets ++ more)

  solo-finished : (times : List ℕ) → solo finished times ≡ (finished, [])
  unfolding turn
  solo-finished [] = refl
  solo-finished (timestamp ∷ times) = solo-finished times

  solo-panicked : (times : List ℕ) → solo panicked times ≡ (panicked, [])
  unfolding turn
  solo-panicked [] = refl
  solo-panicked (timestamp ∷ times) = solo-panicked times

  solo-ended :
      (o : Outcome T) (timestamp : ℕ) (times : List ℕ)
      → let (h, _, packets) = polled poll true o in
        let (last, more) = solo h (timestamp ∷ times) in (last, packets ++ more) ≡ ended o
  unfolding turn
  solo-ended (done task packets) timestamp times = rw (solo-finished times, append-nil packets) refl
  solo-ended panic timestamp times = solo-panicked times

  -- Two steps are enough.
  solo-finish :
      (h : Handle T) (timestamp later : ℕ) (times : List ℕ)
      → solo h (timestamp ∷ later ∷ times) ≡ finish timestamp h
  unfolding turn
  solo-finish (looping task) timestamp later times = solo-finished times
  solo-finish (polling task) timestamp later times = solo-ended (poll task timestamp) later times
  solo-finish finished timestamp later times = solo-finished times
  solo-finish panicked timestamp later times = solo-panicked times

  turn-true : (timestamp : ℕ) (h : Handle T) → (turn poll true timestamp h).1 ≡ true
  unfolding turn
  turn-true timestamp (looping task) = refl
  turn-true timestamp (polling task) = token (poll task timestamp)
    where
      token : (o : Outcome T) → (polled poll true o).1 ≡ true
      token (done task packets) = refl
      token panic = refl
  turn-true timestamp finished = refl
  turn-true timestamp panicked = refl

  get_or-turn :
      (timestamp : ℕ) (handles : List (Handle T)) (i : ℕ)
      → get_or (set handles i (turn poll true timestamp (get_or handles i finished)).0) i finished
        ≡ (turn poll true timestamp (get_or handles i finished)).0
  unfolding turn
  get_or-turn timestamp [] i = refl
  get_or-turn timestamp (h ∷ handles) zero = refl
  get_or-turn timestamp (h ∷ handles) (suc i) = get_or-turn timestamp handles i

  pub turns-solo :
      (schedule : List (ℕ × ℕ)) (handles : List (Handle T)) (i : ℕ)
      → let (last, log) = turns poll schedule (record { handles = handles; cancelled = true }) in
        (get_or last.handles i finished ≡ (solo (get_or handles i finished) (own i schedule)).0)
        × (sent_by i log ≡ (solo (get_or handles i finished) (own i schedule)).1)
        × (length last.handles ≡ length handles)
  unfolding turns
  turns-solo [] handles i = (refl, refl, refl)
  turns-solo ((j, timestamp) ∷ schedule) handles i =
      let handle = (turn poll true timestamp (get_or handles j finished)).0 in
      let rest = turns-solo schedule (set handles j handle) i in
      let size = length-set handles j handle in
      elim (ℕ_discrete i j) [
        | yes same ↦
            let reached : get_or (set handles j handle) i finished ≡ handle =
              rw same (get_or-turn timestamp handles j) in
            let (state, sent, sized) = rw reached at rest in
            let here : get_or handles i finished ≡ get_or handles j finished = rw same in
            rw (here, ==_of i j same, turns, turn-true timestamp (get_or handles j finished))
              (
                state,
                ap (◌++◌ (turn poll true timestamp (get_or handles j finished)).2) sent,
                sized ∙ size,
              )
        | no other ↦
            let (state, sent, sized) = rest in
            rw (==_ne i j other, turns, turn-true timestamp (get_or handles j finished))
              (rw (← get_or-set_ne handles j i handle finished (λ e. other (sym e)))
                (state, sent, sized ∙ size))
      ]

  pub solo-twice :
      (h : Handle T) (times : List ℕ) → 2 ≤ length times → solo h times ≡ finish (first times) h
  solo-twice h [] enough = absurd (omega arith)
  solo-twice h (timestamp ∷ []) enough = absurd (omega arith)
  solo-twice h (timestamp ∷ later ∷ times) enough = solo-finish h timestamp later times
