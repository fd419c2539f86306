-- ===== src/Runtimes.antt =====
-- crates/longboy/src/runtimes: when a runtime polls its task, and with which timestamp. Times are
-- in milliseconds; the times of the ticks are arguments, and the cancellation token ends the list.
pub mod Threads
pub mod Tokio
use longboy.Prelude.{ℕ, ◌-◌, ◌%◌, ◌^◌, List, [], ◌∷◌, map}
use longboy.Effects.{Outcome, done, ◌>>=◌}

-- `ThreadRuntime`: `instant.elapsed().as_millis() as u16` since the start.
unfoldable pub thread_timestamps : ℕ → List ℕ → List ℕ
thread_timestamps instant = map (λ now. (now - instant) % 2 ^ 16)

-- `TokioRuntime`: `tick.duration_since(instant)`, which stops at 0, and `instant = tick`.
unfoldable pub tokio_timestamps : ℕ → List ℕ → List ℕ
tokio_timestamps instant [] = []
tokio_timestamps instant (tick ∷ ticks) = (tick - instant) % 2 ^ 16 ∷ tokio_timestamps tick ticks

-- The loop on the task's `poll`.
unfoldable pub run : {T : Type 0} → (T → ℕ → Outcome T) → T → List ℕ → Outcome T
run poll t [] = done t []
run poll t (timestamp ∷ timestamps) = poll t timestamp >>= λ t'. run poll t' timestamps
