-- ===== src/Runtimes/Threads/Drop.antt =====
-- What happens when a runtime is dropped.
use longboy.Prelude.{ℕ, suc, Bool, true, false, ◌||◌, List, [], ◌∷◌, if◌then◌else◌}
use longboy.Effects.{Outcome}
use longboy.Runtimes.Threads.{
  Handle, looping, polling, finished, panicked, Joined, joined, unwrap_panic,
}
use longboy.Runtimes.Threads.Steps.{finish}

abbrev verdict : Bool → Joined
verdict b = if b then unwrap_panic else joined

module _ {T : Type 0} where
  abbrev pub has_panicked : Handle T → Bool
  has_panicked panicked = true
  has_panicked finished = false
  has_panicked (looping task) = false
  has_panicked (polling task) = false

  abbrev pub any_panicked : List (Handle T) → Bool
  any_panicked [] = false
  any_panicked (h ∷ handles) = has_panicked h || any_panicked handles

  module _ (poll : T → ℕ → Outcome T) where
    -- How the threads end, when these are the times of their next steps.
    abbrev pub ends : (ℕ → ℕ) → List (Handle T) → List (Handle T)
    ends time [] = []
    ends time (h ∷ handles) = (finish poll (time 0) h).0 ∷ ends (λ i. time (suc i)) handles
