-- ===== src/Proto/Receiver/Rejects.antt =====
-- Which datagrams a receiver refuses.
use longboy.Prelude.{
  ℕ, ◌+◌, ◌-◌, ◌%◌, ◌^◌, ◌≤◌, ◌<◌, ◌≡◌, refl, arith, Bool, true, false, List, lt→ltb, ◌||◌,
}
use longboy.Prelude.Slices.{slice}
use longboy.Prelude.Bytes.{from_le_bytes}
use longboy.Prelude.Modular.{mod_cases, mod_bound}
use longboy.Proto.Constants.{Constants, IsValid, max_cycle}
use longboy.Proto.Cipher.{Rc5}
use longboy.Proto.Receiver.{Sink, Receiver, open_header, handle_datagram}
use longboy.Proto.Receiver.Cycles.{InRange}
use longboy.Proto.Receiver.Invariant.{header_cycle}

or-true : (a : Bool) → (a || true) ≡ true
or-true true = refl
or-true false = refl

module _ (rc5 : Rc5) {k : Constants} (v : IsValid k) {K : Type 0} (sink : Sink K) where
  -- A datagram whose cycle a receiver in range has passed by 1 up to MAX_CYCLE - 257 cycles, such
  -- as the second copy of one that has been taken, changes nothing, whatever else it holds.
  pub handle_datagram-passed :
      (r : Receiver K) (now back : ℕ) (datagram : List ℕ)
      → InRange k r
      → 0 < back
      → back + 257 ≤ max_cycle k
      → header_cycle rc5 v sink r datagram ≡ (r.cycle + max_cycle k - back) % max_cycle k
      → (handle_datagram rc5 k sink r now datagram).0 ≡ r
  unfolding handle_datagram
  handle_datagram-passed r now back datagram h pos far e =
      let gap : 256 < (header_cycle rc5 v sink r datagram + max_cycle k - r.cycle) % max_cycle k =
        rw e (
          omega (
            arith,
            h.in_ring,
            mod_cases (r.cycle + max_cycle k - back) (max_cycle k) (omega (arith, h.in_ring)),
            mod_cases ((r.cycle + max_cycle k - back) % max_cycle k + max_cycle k - r.cycle)
                (max_cycle k)
                (omega (arith, h.in_ring, mod_bound (r.cycle + max_cycle k - back) (max_cycle k))),
          )) in
      rw (lt→ltb 256 _ gap)

  -- A datagram whose timestamp lies more than 2048 ms back, or ahead, on the ring of timestamps
  -- changes nothing.
  pub handle_datagram-stale :
      (r : Receiver K) (now : ℕ) (datagram : List ℕ)
      → let timestamp = from_le_bytes (slice (open_header rc5 k sink r datagram) 2 2) in
        2048 < (now + 2 ^ 16 - timestamp) % 2 ^ 16
        → (handle_datagram rc5 k sink r now datagram).0 ≡ r
  unfolding handle_datagram
  handle_datagram-stale r now datagram late = rw (lt→ltb 2048 _ late, or-true)
