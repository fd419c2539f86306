-- ===== src/Tests/Tokio.antt =====
-- A runtime of two tasks, of which the second panics.
use longboy.Prelude.{
  ℕ, zero, suc, ◌+◌, ◌≡◌, refl, true, false, Option, none, some, List, [], ◌∷◌, get_or,
}
use longboy.Effects.{Packet, Outcome, done, panic}
use longboy.Runtimes.{tokio_timestamps, run}
use longboy.Runtimes.Tokio.{
  spawned, looping, finished, TokioRuntime, Wake, Event, wake, new, running, spawn, turns,
}
use longboy.Runtimes.Tokio.Isolation.{sent_by, turns-run}
use longboy.Runtimes.Tokio.Cancel.{turns-cancelled}

-- A packet that says how long it was since the last poll.
abbrev say : ℕ → Packet
say timestamp = record { socket = 1; to = 2; bytes = timestamp ∷ [] }

abbrev count : ℕ → ℕ → Outcome ℕ
count zero timestamp = panic
count (suc n) timestamp = done (n + 2) (say timestamp ∷ [])

abbrev two_tasks : TokioRuntime ℕ
two_tasks = record { handles = spawned 3 ∷ spawned 0 ∷ []; cancelled = false }

two_tasks_spawned : spawn (spawn (new false) 3) 0 ≡ two_tasks
unfolding spawn new
two_tasks_spawned = refl

abbrev at : ℕ → Option ℕ → Wake
at now tick = record { now = now; tick = tick; picks_tick = true }

abbrev schedule : List Event
schedule =
    wake 0 (at 10 (some 9))
    ∷ wake 1 (at 10 (some 10))
    ∷ wake 0 (at 12 (some 11))
    ∷ wake 0 (at 12 none)
    ∷ []

turns-run_example :
    let (runtime, log) = turns count schedule two_tasks in
    (running runtime ≡ true)
    × (get_or runtime.handles 0 finished ≡ looping 5 11)
    × (sent_by 0 log ≡ say 0 ∷ say 2 ∷ [])
unfolding running run tokio_timestamps
turns-run_example =
    turns-run count two_tasks schedule 0 3 5 (at 10 (some 9)) (at 12 (some 11) ∷ at 12 none ∷ [])
      (say 0 ∷ say 2 ∷ []) refl tt refl refl refl

-- Behind a cancellation task 0 takes one more tick, and then the token.
abbrev stopping : TokioRuntime ℕ
stopping = record { handles = looping 3 5 ∷ looping 0 5 ∷ []; cancelled = true }

abbrev last_turns : List Event
last_turns =
    wake 1 (at 10 (some 9))
    ∷ wake 0 (at 10 (some 9))
    ∷ wake 0 (record { now = 12; tick = some 11; picks_tick = false })
    ∷ wake 0 (at 14 (some 13))
    ∷ []

turns-cancelled_example :
    let (runtime, log) = turns count last_turns stopping in
    (get_or runtime.handles 0 finished ≡ finished) × (sent_by 0 log ≡ say 4 ∷ [])
unfolding run tokio_timestamps
turns-cancelled_example =
    turns-cancelled count stopping last_turns 0 3 4 5 (say 4 ∷ []) refl refl refl refl
