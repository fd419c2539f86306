-- ===== src/Proto/Receiver/Recover.antt =====
-- A receiver that has missed fewer datagrams than a window is long recovers all payloads from the
-- next one that arrives.
use longboy.Prelude.{
  ℕ, zero, suc, ◌+◌, ◌-◌, ◌%◌, ◌≤◌, ◌<◌, ◌≡◌, refl, sym, ◌∙◌, ap, arith, true, false, Option, List,
  [], ◌∷◌, foldl, length, get_or, set, lt→ltb, ltb_of_le,
}
use longboy.Prelude.Modular.{ahead, back, back_past, mod_suc, mod_bound, mod_below}
use longboy.Proto.Constants.{Constants, IsValid, datagram_size, max_cycle, max_buffered}
use longboy.Proto.Constants.Bounds.{ranges}
use longboy.Proto.Cipher.{Rc5, Cipher}
use longboy.Proto.Receiver.{Sink, Receiver, next_cycle, advance, sink_input, accept}
use longboy.Proto.Receiver.Buffer.{Marked, unmarked, mark, unmark, all_clear}
use longboy.Proto.Receiver.Slots.{
  cycle_at, index_at, payload_at, Intact, give, sink_slot-new, opened_slot-Intact,
  payload_at-Intact,
}

module _ (rc5 : Rc5) {k : Constants} (v : IsValid k) {K : Type 0} (sink : Sink K) where
  -- The `m` payloads of the rounds from `i` on.
  abbrev pub rounds : Cipher → List ℕ → ℕ → ℕ → ℕ → List (Option (List ℕ))
  rounds c datagram d zero i = []
  rounds c datagram d (suc m) i =
      payload_at rc5 c k.size datagram (index_at k d i) ∷ rounds c datagram d m (i + 1)

  -- In the middle of the window: the cycles from `lo` up to `hi` places after `c` have been taken,
  -- and those below wait to be.
  sink_input-recovers :
      (c hi : ℕ) (original : List ℕ) (n m i : ℕ) (r : Receiver K) (datagram : List ℕ)
      → r.cycle ≡ c
      → c < max_cycle k
      → 0 < hi
      → hi ≤ k.window_size
      → i + m ≡ hi
      → i + n ≡ k.window_size
      → Marked k c m hi r.flags
      → Intact k original ((c + (hi - 1)) % max_cycle k) i datagram
      → let r' = (sink_input rc5 k sink n i ((c + (hi - 1)) % max_cycle k) (r, datagram)).0 in
        (r'.cycle ≡ c)
        × (r'.cipher ≡ r.cipher)
        × Marked k c 0 hi r'.flags
        × (r'.sink
            ≡ foldl
                (give rc5 v sink)
                r.sink
                (rounds r.cipher original ((c + (hi - 1)) % max_cycle k) m i))
  unfolding sink_input
  sink_input-recovers c hi original zero zero i r datagram rc cm h0 hw im inw mk same =
      (rc, refl, mk, refl)
  sink_input-recovers c hi original (suc n) zero i r datagram rc cm h0 hw im inw mk same =
      let far : (cycle_at k ((c + (hi - 1)) % max_cycle k) i + max_cycle k - c) % max_cycle k
          ≡ max_cycle k - (i - (hi - 1)) =
        back_past (max_cycle k) c cm (hi - 1) i (omega arith) (omega (arith, ranges v)) in
      rw (rc, far, lt→ltb (max_buffered k) (max_cycle k - (i - (hi - 1))) (omega (arith, ranges v)))
        (refl, refl, mk, refl)
  sink_input-recovers c hi original zero (suc m) i r datagram rc cm h0 hw im inw mk same =
      absurd (omega arith)
  sink_input-recovers c hi original (suc n) (suc m) i r datagram rc cm h0 hw im inw mk same =
      let d = (c + (hi - 1)) % max_cycle k in
      let left : hi - 1 - i ≡ m = omega arith in
      let here : cycle_at k d i ≡ (c + m) % max_cycle k =
        back (max_cycle k) c cm (hi - 1) i (omega (arith, ranges v)) (omega arith)
        ∙ ap (λ (t : ℕ). (c + t) % max_cycle k) left in
      let near : (cycle_at k d i + max_cycle k - r.cycle) % max_cycle k ≡ m =
        ap (λ (t : ℕ). (cycle_at k d i + max_cycle k - t) % max_cycle k) rc
        ∙ ap (λ (t : ℕ). (t + max_cycle k - c) % max_cycle k) here
        ∙ ahead (max_cycle k) c cm m (omega (arith, ranges v)) in
      let fresh : get_or r.flags (cycle_at k d i % max_buffered k) false ≡ false =
        ap (λ (t : ℕ). get_or r.flags (t % max_buffered k) false) here
        ∙ unmarked v c hi m (omega arith) mk in
      let taken : Marked k c m hi (set r.flags (cycle_at k d i % max_buffered k) true) =
        rw here (mark v c hi m (omega arith) mk) in
      let (a, b, f, g) =
        sink_input-recovers c hi original n m (i + 1)
          (record r {
            sink =
                give rc5 v sink r.sink (payload_at rc5 r.cipher k.size datagram (index_at k d i));
            flags = set r.flags (cycle_at k d i % max_buffered k) true;
          })
          _ rc cm h0 hw (omega arith) (omega arith) taken
          (opened_slot-Intact rc5 v sink original d i r datagram (omega arith) same) in
      rw
        (
          near,
          ltb_of_le (max_buffered k) m (omega (arith, ranges v)),
          sink_slot-new rc5 v sink (cycle_at k d i) r datagram same.0 fresh,
        )
        (
          a,
          b,
          f,
          g
              ∙ ap
                  (λ p.
                    foldl (give rc5 v sink) (give rc5 v sink r.sink p)
                      (rounds r.cipher original d m (i + 1)))
                  (payload_at-Intact rc5 r.cipher k original d i datagram (omega arith) same),
        )

  -- The run of flagged cycles is walked off; then no flag is left.
  advance-recovers :
      (c hi fuel m lo : ℕ) (r : Receiver K)
      → r.cycle ≡ (c + lo) % max_cycle k
      → hi ≤ k.window_size
      → lo + m ≡ hi
      → m < fuel
      → Marked k c lo hi r.flags
      → let r' = advance k fuel r in
        (r'.cycle ≡ (c + hi) % max_cycle k)
        × (r'.sink ≡ r.sink)
        × (r'.cipher ≡ r.cipher)
        × Marked k c hi hi r'.flags
  unfolding advance next_cycle
  advance-recovers c hi zero m lo r rc hw e f mk = absurd (omega arith)
  advance-recovers c hi (suc fuel) zero lo r rc hw e f mk =
      let same : lo ≡ hi = omega arith in
      rw (all_clear v c hi lo (r.cycle % max_buffered k) (omega arith) mk)
        (rc ∙ ap (λ (t : ℕ). (c + t) % max_cycle k) same, refl, refl, rw same at mk)
  advance-recovers c hi (suc fuel) (suc m) lo r rc hw e f mk =
      let set_here : get_or r.flags (r.cycle % max_buffered k) false ≡ true =
        ap (λ (t : ℕ). get_or r.flags (t % max_buffered k) false) rc
        ∙ mk.inside lo (omega arith) (omega arith) in
      let onward : c + lo + 1 ≡ c + suc lo = omega arith in
      rw set_here (
        advance-recovers c hi fuel m (suc lo) (next_cycle k r)
          (ap (λ (t : ℕ). (t + 1) % max_cycle k) rc
            ∙ mod_suc (c + lo) (max_cycle k)
            ∙ ap (λ (t : ℕ). t % max_cycle k) onward)
          hw (omega arith) (omega arith)
          (rw (ap (λ (t : ℕ). t % max_buffered k) rc)
            (unmark v c hi lo (omega arith) (omega arith) mk)))

-- No flag is set: nothing has arrived ahead of the local cycle.
pub record IsClear (k : Constants) {K : Type 0} (r : Receiver K) : Type 0 where
  pub in_ring : r.cycle < max_cycle k
  pub size : length r.flags ≡ max_buffered k
  pub clear : (i : ℕ) → get_or r.flags i false ≡ false

clear-Marked :
    {k : Constants} {K : Type 0} (r : Receiver K) (hi : ℕ)
    → IsClear k r
    → Marked k r.cycle hi hi r.flags
clear-Marked r hi h = record {
  size = h.size;
  inside = λ j a b. absurd (omega arith);
  only = λ i t. absurd (cc (h.clear i));
}

module _ (rc5 : Rc5) {k : Constants} (v : IsValid k) {K : Type 0} (sink : Sink K) where
  -- An accepted datagram of the right length that is n - 1 cycles ahead of a receiver with
  -- nothing buffered, n at most a window: all of its last n payloads are handed over, newest
  -- first, and the receiver has caught up with nothing buffered.
  pub accept_recovers :
      (n : ℕ) (r : Receiver K) (datagram : List ℕ)
      → IsClear k r
      → 0 < n
      → n ≤ k.window_size
      → length datagram ≡ datagram_size k
      → let d = (r.cycle + (n - 1)) % max_cycle k in
        let r' = (accept rc5 k sink d (n - 1) (r, datagram)).0 in
        (r'.cycle ≡ (r.cycle + n) % max_cycle k)
        × (r'.cipher ≡ r.cipher)
        × IsClear k r'
        × (r'.sink ≡ foldl (give rc5 v sink) r.sink (rounds rc5 v sink r.cipher datagram d n 0))
  unfolding accept
  accept_recovers n r datagram h pos hw size =
      let d = (r.cycle + (n - 1)) % max_cycle k in
      let e : r.cycle + 0 ≡ r.cycle = omega arith in
      let start = ap (λ (t : ℕ). t % max_cycle k) e ∙ mod_below h.in_ring in
      let (a, b, m, g) =
        sink_input-recovers rc5 v sink r.cycle n datagram k.window_size n 0 r datagram refl
          h.in_ring pos hw (omega arith) (omega arith) (clear-Marked r n h) (size, λ j x y. refl) in
      let (a', g', b', m') =
        advance-recovers rc5 v sink r.cycle n (max_buffered k) n 0 _ (a ∙ sym start) hw
          (omega arith) (omega (arith, ranges v)) m in
      rw (ltb_of_le (max_buffered k) (n - 1) (omega (arith, ranges v))) (
        a',
        b' ∙ b,
        record {
          in_ring = rw a' (mod_bound _ _ (omega (arith, ranges v)));
          size = m'.size;
          clear = λ i. all_clear v r.cycle n n i (omega arith) m';
        },
        g' ∙ g,
      )
