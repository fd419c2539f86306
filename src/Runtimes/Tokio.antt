-- ===== src/Runtimes/Tokio.antt =====
-- crates/longboy/src/runtimes/tokio_runtime.rs: a runtime with its tasks on tokio's scheduler. A task
-- takes a turn at a time, up to where it waits again; the order of the turns, when the interval has
-- a tick and which ready branch `select!` takes are arguments. Dropping the runtime is left out.
pub mod Isolation
pub mod Heartbeats
pub mod Cancel
use longboy.Prelude.{
  ℕ, ◌-◌, ◌%◌, ◌^◌, Bool, true, false, not, Option, none, some, List, [], ◌∷◌, ◌++◌, set, get_or,
  if◌then◌else◌,
}
use longboy.Effects.{Packet, Outcome, done, panic}

-- A task on the scheduler: not begun, in its loop with its `instant`, at the end of `run`, or unwound
-- by a panic.
pub data JoinHandle (T : Type 0) : Type 0 where
  spawned : T → JoinHandle T
  looping : T → ℕ → JoinHandle T
  finished panicked : JoinHandle T

-- `cancelled` is the token's state, which all tasks and the caller share.
pub record TokioRuntime (T : Type 0) : Type 0 where
  pub handles : List (JoinHandle T)
  pub cancelled : Bool

-- What a task finds on its turn: the time, the tick if the interval has one, and which branch
-- `select!` takes where both are ready.
pub record Wake : Type 0 where
  pub now : ℕ
  pub tick : Option ℕ
  pub picks_tick : Bool

-- A turn of the task at a place, or the caller's `cancel` on the token.
pub data Event : Type 0 where
  wake : ℕ → Wake → Event
  cancel : Event

pub data Selected : Type 0 where
  ticked : ℕ → Selected
  stopped pending : Selected

-- `select!` on the interval's tick and the token.
unfoldable pub select : Bool → Bool → Option ℕ → Selected
select cancelled picks_tick (some tick) =
    if cancelled then (if picks_tick then ticked tick else stopped) else ticked tick
select cancelled picks_tick none = if cancelled then stopped else pending

module _ {T : Type 0} where
  unfoldable pub new : Bool → TokioRuntime T
  new cancelled = record { handles = []; cancelled = cancelled }

  unfoldable pub running : TokioRuntime T → Bool
  running runtime = not runtime.cancelled

  unfoldable pub spawn : TokioRuntime T → T → TokioRuntime T
  spawn runtime task = record runtime { handles = runtime.handles ++ spawned task ∷ [] }

  module _ (poll : T → ℕ → Outcome T) where
    -- Behind `poll`: a panic unwinds the task, and leaves the token alone.
    abbrev pub polled : Bool → ℕ → Outcome T → JoinHandle T × Bool × List Packet
    polled cancelled tick (done task packets) = (looping task tick, cancelled, packets)
    polled cancelled tick panic = (panicked, cancelled, [])

    -- Behind `select!`.
    unfoldable pub proceed : Bool → T → ℕ → Selected → JoinHandle T × Bool × List Packet
    proceed cancelled task instant (ticked tick) =
        polled cancelled tick (poll task ((tick - instant) % 2 ^ 16))
    proceed cancelled task instant stopped = (finished, true, [])
    proceed cancelled task instant pending = (looping task instant, cancelled, [])

    -- One turn of `Task::run`, from one wait to the next.
    unfoldable pub turn : Bool → Wake → JoinHandle T → JoinHandle T × Bool × List Packet
    unfolding proceed select
    turn cancelled w (spawned task) =
        proceed cancelled task w.now (select cancelled w.picks_tick w.tick)
    turn cancelled w (looping task instant) =
        proceed cancelled task instant (select cancelled w.picks_tick w.tick)
    turn cancelled w finished = (finished, cancelled, [])
    turn cancelled w panicked = (panicked, cancelled, [])

    -- The scheduler's turns, with what each one sends.
    unfoldable pub turns : List Event → TokioRuntime T → TokioRuntime T × List (ℕ × List Packet)
    unfolding turn
    turns [] runtime = (runtime, [])
    turns (cancel ∷ schedule) runtime = turns schedule (record runtime { cancelled = true })
    turns (wake i w ∷ schedule) runtime =
        let (handle, cancelled, packets) =
          turn runtime.cancelled w (get_or runtime.handles i finished) in
        let (last, more) =
          turns schedule
            (record { handles = set runtime.handles i handle; cancelled = cancelled }) in
        (last, (i, packets) ∷ more)
