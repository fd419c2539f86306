-- ===== src/Proto/Receiver/Cycles.antt =====
-- The receiver's ranges, and its two loops over cycles: giving up on old ones and advancing over
-- those that have arrived.
use longboy.Prelude.{
  ℕ, zero, suc, ◌+◌, ◌%◌, ◌≤◌, ◌<◌, ◌≡◌, refl, ◌∙◌, ap, arith, false, length, get_or, length-set,
  length-replicate, get_or-replicate, count, count-le-length, count-set-false, get_or_of_count, inl,
  inr, Bool-cases,
}
use longboy.Prelude.Modular.{mod_bound, mod_below}
use native.Mathlib.Nat.{mod-add-mod}
use longboy.Proto.Constants.{Constants, IsValid, max_cycle, max_buffered}
use longboy.Proto.Constants.Bounds.{ranges}
use longboy.Proto.Receiver.{Receiver, new, next_cycle, skip_cycles, advance}

pub record InRange (k : Constants) {K : Type 0} (r : Receiver K) : Type 0 where
  pub in_ring : r.cycle < max_cycle k
  pub size : length r.flags ≡ max_buffered k

-- The local cycle has not arrived.
abbrev pub IsWaiting : Constants → {K : Type 0} → Receiver K → Type 0
IsWaiting k r = get_or r.flags (r.cycle % max_buffered k) false ≡ false

module _ {k : Constants} (v : IsValid k) {K : Type 0} where
  -- A new receiver is in range and waits for cycle 0.
  pub new-InRange : (key : ℕ) (sink : K) → InRange k (new k key sink) × IsWaiting k (new k key sink)
  unfolding new
  new-InRange key sink = (
    record { in_ring = omega (arith, ranges v); size = length-replicate (max_buffered k) false },
    get_or-replicate (max_buffered k) false (0 % max_buffered k),
  )

  next_cycle-InRange : (r : Receiver K) → InRange k r → InRange k (next_cycle k r)
  unfolding next_cycle
  next_cycle-InRange r h = record {
    in_ring = mod_bound _ _ (omega (arith, ranges v));
    size = length-set r.flags (r.cycle % max_buffered k) false ∙ h.size;
  }

  pub skip_cycles-InRange : (n : ℕ) (r : Receiver K) → InRange k r → InRange k (skip_cycles k n r)
  unfolding skip_cycles
  skip_cycles-InRange zero r h = h
  skip_cycles-InRange (suc n) r h = skip_cycles-InRange n (next_cycle k r) (next_cycle-InRange r h)

  -- Giving up on n cycles moves the local cycle of a receiver in range n places round the ring
  -- and touches neither the sink nor the keys.
  pub skip_cycles_lem :
      (n : ℕ) (r : Receiver K)
      → InRange k r
      → ((skip_cycles k n r).cycle ≡ (r.cycle + n) % max_cycle k)
        × ((skip_cycles k n r).sink ≡ r.sink)
        × ((skip_cycles k n r).cipher ≡ r.cipher)
  unfolding skip_cycles next_cycle
  skip_cycles_lem zero r h =
      let e : r.cycle + 0 ≡ r.cycle = omega arith in (rw (e, mod_below h.in_ring), refl, refl)
  skip_cycles_lem (suc n) r h =
      let (a, b, c) = skip_cycles_lem n (next_cycle k r) (next_cycle-InRange r h) in
      let e : r.cycle + 1 + n ≡ r.cycle + suc n = omega arith in
      (a ∙ mod-add-mod (r.cycle + 1) (max_cycle k) n ∙ ap (λ t. t % max_cycle k) e, b, c)

  pub advance-InRange : (fuel : ℕ) (r : Receiver K) → InRange k r → InRange k (advance k fuel r)
  unfolding advance
  advance-InRange zero r h = h
  advance-InRange (suc fuel) r h =
      elim (Bool-cases (get_or r.flags (r.cycle % max_buffered k) false)) [
        | inl e ↦ rw e (advance-InRange fuel (next_cycle k r) (next_cycle-InRange r h))
        | inr e ↦ rw e h
      ]

  -- Each round clears a flag, so the loop ends by its test within as many rounds as flags are set.
  advance_counts :
      (fuel : ℕ) (r : Receiver K) → count r.flags ≤ fuel → IsWaiting k (advance k fuel r)
  unfolding advance next_cycle
  advance_counts zero r h = get_or_of_count r.flags _ (omega arith)
  advance_counts (suc fuel) r h =
      elim (Bool-cases (get_or r.flags (r.cycle % max_buffered k) false)) [
        | inl e ↦ rw e (
            advance_counts fuel (next_cycle k r)
              (omega (arith, count-set-false r.flags (r.cycle % max_buffered k) e)))
        | inr e ↦ rw e e
      ]

  -- For a receiver in range the loop that advances over the cycles that have arrived ends by its
  -- test within MAX_BUFFERED rounds: it stops at a cycle that has not arrived.
  pub advance_stops : (r : Receiver K) → InRange k r → IsWaiting k (advance k (max_buffered k) r)
  advance_stops r h =
      advance_counts (max_buffered k) r (omega (arith, count-le-length r.flags, h.size))

  pub sink-advance :
      (fuel : ℕ) (r : Receiver K)
      → ((advance k fuel r).sink ≡ r.sink) × ((advance k fuel r).cipher ≡ r.cipher)
  unfolding advance next_cycle
  sink-advance zero r = (refl, refl)
  sink-advance (suc fuel) r = elim (Bool-cases (get_or r.flags (r.cycle % max_buffered k) false)) [
    | inl e ↦ rw e (sink-advance fuel (next_cycle k r))
    | inr e ↦ rw e (refl, refl)
  ]
