-- ===== src/Proto/Link/Window.antt =====
-- The last cycles before the one that comes next, in the ring of a sender.
use longboy.Prelude.{
  ℕ, zero, suc, ◌+◌, ◌-◌, ◌%◌, ◌≤◌, ◌<◌, ◌≡◌, refl, ◌∙◌, ap, arith, Option, none, List, ◌∷◌, length,
  set, get_or-set_self, get_or-set_ne,
}
use mathlib.Core.Path.{ap₂}
use longboy.Prelude.Modular.{mod_bound, mod_cases}
use longboy.Proto.Constants.{Constants, IsValid, max_cycle}
use longboy.Proto.Constants.Bounds.{ranges}
use longboy.Proto.Receiver.Slots.{index_at, cycle_at, index_at_apart, index_at-lt}
use longboy.Proto.Link.Frames.{newest}

-- Looking back from the next cycle.
cycle_at_suc :
    {k : Constants} (v : IsValid k) (d i : ℕ)
    → d < max_cycle k
    → i < max_cycle k
    → cycle_at k ((d + 1) % max_cycle k) (i + 1) ≡ cycle_at k d i
cycle_at_suc {k} v d i hd hi = omega (
  arith,
  mod_cases (d + 1) (max_cycle k) (omega arith),
  mod_cases ((d + 1) % max_cycle k + max_cycle k - (i + 1)) (max_cycle k)
      (omega (arith, mod_bound (d + 1) (max_cycle k))),
  mod_cases (d + max_cycle k - i) (max_cycle k) (omega arith),
)

pub newest_suc :
    {k : Constants} (v : IsValid k) (ps : List (Option (List ℕ))) (d m i : ℕ)
    → d < max_cycle k
    → i + m ≤ k.window_size
    → newest k ps ((d + 1) % max_cycle k) m (i + 1) ≡ newest k ps d m i
newest_suc v ps d zero i hd h = refl
newest_suc {k} v ps d (suc m) i hd h =
    rw (
      cycle_at_suc v d i hd (omega (arith, ranges v)),
      newest_suc v ps d m (i + 1) hd (omega arith),
    )

-- The slot of the cycle itself is not among those of the window before it.
newest-set :
    {k : Constants} (v : IsValid k) (ps : List (Option (List ℕ))) (p : Option (List ℕ)) (d m i : ℕ)
    → 0 < i
    → i + m ≤ k.window_size
    → newest k (set ps (index_at k d 0) p) d m i ≡ newest k ps d m i
newest-set v ps p d zero i pos h = refl
newest-set {k} v ps p d (suc m) i pos h = rw (
  get_or-set_ne ps (index_at k d 0) (index_at k d i) p none
      (index_at_apart v d 0 i pos (omega arith)),
  newest-set v ps p d m (i + 1) (omega arith) (omega arith),
)

index_at_zero :
    {k : Constants} (v : IsValid k) (d : ℕ) → d < max_cycle k → d % k.window_size ≡ index_at k d 0
index_at_zero {k} v d h =
    let e : d ≡ cycle_at k d 0 =
      omega (arith, mod_cases (d + max_cycle k - 0) (max_cycle k) (omega arith)) in
    ap (λ (t : ℕ). t % k.window_size) e

-- The next payload goes in front of those that the window holds.
pub newest-step :
    {k : Constants} (v : IsValid k) (ps : List (Option (List ℕ))) (p : Option (List ℕ)) (d m : ℕ)
    → d < max_cycle k
    → suc m ≤ k.window_size
    → length ps ≡ k.window_size
    → newest k (set ps (d % k.window_size) p) ((d + 1) % max_cycle k) (suc m) 1
      ≡ p ∷ newest k ps d m 1
newest-step {k} v ps p d m hd hm e =
    ap (λ (i : ℕ). newest k (set ps i p) ((d + 1) % max_cycle k) (suc m) 1) (index_at_zero v d hd)
    ∙ (newest_suc v (set ps (index_at k d 0) p) d (suc m) 0 hd (omega arith)
        ∙ ap₂ ◌∷◌ (get_or-set_self ps (index_at k d 0) p none (omega (arith, index_at-lt v d 0)))
            (newest-set v ps p d m 1 (omega arith) (omega arith)))
