-- ===== src/Runtimes/Threads.antt =====
-- crates/longboy/src/runtimes/thread_runtime.rs: a runtime with its threads. A thread takes a step at
-- a time: it tests the token, or it polls its task, so that a cancellation comes between the two.
-- The order of the steps is an argument. A poll does not look at the token, so one that is under way
-- when the token is cancelled is a step that comes behind. The name of a thread is left out.
pub mod Steps
pub mod Drop
use longboy.Prelude.{
  ℕ, ◌+◌, Bool, true, false, not, List, [], ◌∷◌, ◌++◌, set, get_or, if◌then◌else◌,
}
use longboy.Effects.{Packet, Outcome, done, panic}

-- A thread: before the test of its loop, behind the test and in `poll`, at the end of its function,
-- or unwound by a panic.
pub data Handle (T : Type 0) : Type 0 where
  looping polling : T → Handle T
  finished panicked : Handle T

-- `cancelled` is the token's state, which all threads share.
pub record ThreadRuntime (T : Type 0) : Type 0 where
  pub handles : List (Handle T)
  pub cancelled : Bool

-- `join` waits for a thread that is in its loop; `unwrap` panics on one that has panicked.
pub data Joined : Type 0 where
  joined waiting unwrap_panic : Joined

abbrev pub after_join : Joined → Joined → Joined
after_join joined next = next
after_join first next = first

module _ {T : Type 0} where
  unfoldable pub new : Bool → ThreadRuntime T
  new cancelled = record { handles = []; cancelled = cancelled }

  unfoldable pub running : ThreadRuntime T → Bool
  running runtime = not runtime.cancelled

  unfoldable pub spawn : ThreadRuntime T → T → ThreadRuntime T
  spawn runtime task = record runtime { handles = runtime.handles ++ looping task ∷ [] }

  module _ (poll : T → ℕ → Outcome T) where
    -- Behind `poll`: a panic unwinds the thread, and leaves the token alone.
    abbrev pub polled : Bool → Outcome T → Handle T × Bool × List Packet
    polled cancelled (done task packets) = (looping task, cancelled, packets)
    polled cancelled panic = (panicked, cancelled, [])

    -- One step of `Task::run`: the test, with `cancel` behind the loop, or `poll`.
    unfoldable pub turn : Bool → ℕ → Handle T → Handle T × Bool × List Packet
    turn cancelled timestamp (looping task) =
        if cancelled then (finished, true, []) else (polling task, cancelled, [])
    turn cancelled timestamp (polling task) = polled cancelled (poll task timestamp)
    turn cancelled timestamp finished = (finished, cancelled, [])
    turn cancelled timestamp panicked = (panicked, cancelled, [])

    -- Steps of the threads at these places, at these times, with the packets that each one sends.
    unfoldable pub turns : List (ℕ × ℕ) → ThreadRuntime T → ThreadRuntime T × List (ℕ × List Packet)
    unfolding turn
    turns [] runtime = (runtime, [])
    turns ((i, timestamp) ∷ schedule) runtime =
        let (handle, cancelled, packets) =
          turn runtime.cancelled timestamp (get_or runtime.handles i finished) in
        let (last, more) =
          turns schedule
            (record { handles = set runtime.handles i handle; cancelled = cancelled }) in
        (last, (i, packets) ∷ more)

  abbrev pub join : Handle T → Joined
  join (looping task) = waiting
  join (polling task) = waiting
  join finished = joined
  join panicked = unwrap_panic

  -- From the last handle to the first.
  unfoldable pub join_all : List (Handle T) → Joined
  join_all [] = joined
  join_all (handle ∷ handles) = after_join (join_all handles) (join handle)

  -- `drop`: the threads take the steps of `schedule` behind `cancel`, before they are joined.
  unfoldable pub drop :
      (T → ℕ → Outcome T) → List (ℕ × ℕ) → ThreadRuntime T → Joined × List (ℕ × List Packet)
  unfolding turns join_all
  drop poll schedule runtime =
      let (last, log) = turns poll schedule (record runtime { cancelled = true }) in
      (join_all last.handles, log)
