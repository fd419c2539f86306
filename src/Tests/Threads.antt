-- ===== src/Tests/Threads.antt =====
-- A runtime with three threads, of which one is in a poll, and one has panicked.
use longboy.Prelude.{false, ℕ, ◌+◌, List, [], ◌∷◌}
use longboy.Effects.{Packet, Outcome, done}
use longboy.Runtimes.Threads.{ThreadRuntime, looping, polling, panicked}

abbrev say : ℕ → Packet
say n = record { socket = 1; to = 2; bytes = n ∷ [] }

abbrev count : ℕ → ℕ → Outcome ℕ
count n timestamp = done (n + 1) (say n ∷ [])

abbrev three_threads : ThreadRuntime ℕ
three_threads = record { handles = looping 3 ∷ polling 4 ∷ panicked ∷ []; cancelled = false }

abbrev schedule : List (ℕ × ℕ)
schedule = (1, 5) ∷ (0, 6) ∷ (2, 6) ∷ (1, 7) ∷ (2, 8) ∷ (0, 9) ∷ []
