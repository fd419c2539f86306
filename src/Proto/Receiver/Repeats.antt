-- ===== src/Proto/Receiver/Repeats.antt =====
-- A datagram that is `MAX_BUFFERED` cycles ahead shares its place in the buffer with the local
-- cycle: it is taken for it, and its own copies are not recognised. Shown for windows of one slot.
use longboy.Prelude.{
  ℕ_discrete, ℕ, zero, suc, ◌+◌, ◌-◌, ◌%◌, ◌^◌, ◌≤◌, ◌<◌, ◌≡◌, refl, ◌∙◌, ap, arith, Bool, true,
  false, some, List, length, get_or, set, set-set, get_or-set_self, get_or-set_ne, ltb_of_le,
}
use mathlib.Core.Path.{ap₂}
use native.Mathlib.Nat.{add-mod_right}
use longboy.Prelude.Slices.{slice}
use longboy.Prelude.Bytes.{from_le_bytes}
use longboy.Prelude.Modular.{mod_cases, mod_bound, mod_below}
use longboy.Proto.Constants.{Constants, IsValid, datagram_size, max_cycle, max_buffered}
use longboy.Proto.Constants.Bounds.{ranges}
use longboy.Proto.Cipher.{Rc5}
use longboy.Proto.Receiver.{
  Sink, Receiver, next_cycle, advance, sink_input, open_header, accept, handle_datagram,
}
use longboy.Proto.Receiver.Slots.{cycle_at, payload_at, give, sink_slot-new}
use longboy.Proto.Receiver.Cycles.{sink-advance}
use longboy.Proto.Receiver.Invariant.{header_cycle, length-open_header}
use longboy.Proto.Receiver.Recover.{IsClear}

still_clear :
    (flags : List Bool) (i j : ℕ)
    → ((n : ℕ) → get_or flags n false ≡ false)
    → i < length flags
    → get_or (set (set flags i true) i false) j false ≡ false
still_clear flags i j clear h = rw (set-set flags i true false) (elim (ℕ_discrete i j) [
  | yes e ↦ rw (← e) (get_or-set_self flags i false false h)
  | no ne ↦ get_or-set_ne flags i j false false ne ∙ clear j
])

module _ (rc5 : Rc5) {k : Constants} (v : IsValid k) {K : Type 0} (sink : Sink K) where
  -- The receiver behind a round on cycle `d`, before it advances.
  abbrev taken : Receiver K → List ℕ → ℕ → Receiver K
  taken r datagram d = record r {
    sink = give rc5 v sink r.sink (payload_at rc5 r.cipher k.size datagram (d % k.window_size));
    flags = set r.flags (d % max_buffered k) true;
  }

  single_round :
      (n : ℕ) (r : Receiver K) (d : ℕ) (datagram : List ℕ)
      → n ≡ 1
      → length datagram ≡ datagram_size k
      → d < max_cycle k
      → (d + max_cycle k - r.cycle) % max_cycle k ≤ max_buffered k
      → get_or r.flags (d % max_buffered k) false ≡ false
      → (sink_input rc5 k sink n 0 d (r, datagram)).0 ≡ taken r datagram d
  unfolding sink_input
  single_round zero r d datagram one size hd near fresh = absurd (omega arith)
  single_round (suc zero) r d datagram one size hd near fresh =
      let same : cycle_at k d 0 ≡ d =
        omega (arith, mod_cases (d + max_cycle k - 0) (max_cycle k) (omega arith)) in
      rw (same, ltb_of_le (max_buffered k) _ near, sink_slot-new rc5 v sink d r datagram size fresh)
  single_round (suc (suc n)) r d datagram one size hd near fresh = absurd (omega arith)

  accept-single :
      (r : Receiver K) (d diff : ℕ) (datagram : List ℕ)
      → k.window_size ≡ 1
      → length datagram ≡ datagram_size k
      → d < max_cycle k
      → (d + max_cycle k - r.cycle) % max_cycle k ≡ diff
      → diff ≤ max_buffered k
      → get_or r.flags (d % max_buffered k) false ≡ false
      → (accept rc5 k sink d diff (r, datagram)).0 ≡ advance k (max_buffered k) (taken r datagram d)
  unfolding accept
  accept-single r d diff datagram one size hd e near fresh =
      rw (ltb_of_le (max_buffered k) diff near) (
        ap (advance k (max_buffered k))
          (single_round k.window_size r d datagram one size hd (omega arith) fresh))

  -- The timestamp of a datagram lies at most 2048 ms behind `now`.
  abbrev pub IsTimely : Receiver K → ℕ → List ℕ → Type 0
  IsTimely r now datagram =
      (now + 2 ^ 16 - from_le_bytes (slice (open_header rc5 k sink r datagram) 2 2)) % 2 ^ 16 ≤ 2048

  handle-accept :
      (r : Receiver K) (now diff : ℕ) (datagram : List ℕ)
      → (header_cycle rc5 v sink r datagram + max_cycle k - r.cycle) % max_cycle k ≡ diff
      → diff ≤ 256
      → IsTimely r now datagram
      → handle_datagram rc5 k sink r now datagram
        ≡ accept rc5 k sink
            (header_cycle rc5 v sink r datagram)
            diff
            (r, open_header rc5 k sink r datagram)
  unfolding handle_datagram
  handle-accept r now diff datagram e near timely =
      rw (e, ltb_of_le 256 diff near, ltb_of_le 2048 _ timely)

  -- The receiver has taken the datagram for its local cycle.
  misled : Receiver K → List ℕ → ℕ → Receiver K
  misled r datagram d = record r {
    sink = give rc5 v sink r.sink (payload_at rc5 r.cipher k.size datagram (d % k.window_size));
    cycle = (r.cycle + 1) % max_cycle k;
    flags = set (set r.flags (r.cycle % max_buffered k) true) (r.cycle % max_buffered k) false;
  }

  advance-misled :
      (fuel : ℕ) (r : Receiver K) (d : ℕ) (datagram : List ℕ)
      → IsClear k r
      → 1 < fuel
      → 1 < max_buffered k
      → r.cycle + 1 < max_cycle k
      → d % max_buffered k ≡ r.cycle % max_buffered k
      → advance k fuel (taken r datagram d) ≡ misled r datagram d
  unfolding advance next_cycle misled
  advance-misled zero r d datagram h f mb wrap e = absurd (omega arith)
  advance-misled (suc zero) r d datagram h f mb wrap e = absurd (omega arith)
  advance-misled (suc (suc fuel)) r d datagram h f mb wrap e =
      let here = r.cycle % max_buffered k in
      let inside : here < length r.flags =
        omega (arith, h.size, mod_bound r.cycle (max_buffered k)) in
      rw
        (
          e,
          get_or-set_self r.flags here true false inside,
          still_clear r.flags here ((r.cycle + 1) % max_cycle k % max_buffered k) h.clear inside,
        )
        refl

  misled-cycle :
      (r : Receiver K) (datagram : List ℕ) (d : ℕ)
      → r.cycle + 1 < max_cycle k
      → (misled r datagram d).cycle ≡ r.cycle + 1
  unfolding misled
  misled-cycle r datagram d h = mod_below h

  misled-rest :
      (r : Receiver K) (datagram : List ℕ) (d : ℕ)
      → ((misled r datagram d).cipher ≡ r.cipher)
        × ((misled r datagram d).sink
            ≡ give rc5 v sink r.sink (payload_at rc5 r.cipher k.size datagram (d % k.window_size)))
  unfolding misled
  misled-rest r datagram d = (refl, refl)

  open_header_cipher :
      (q r : Receiver K) (datagram : List ℕ)
      → q.cipher ≡ r.cipher
      → open_header rc5 k sink q datagram ≡ open_header rc5 k sink r datagram
  unfolding open_header
  open_header_cipher q r datagram e = rw e

  eight_places : k.window_size ≡ 1 → max_buffered k ≡ 8
  unfolding max_buffered
  eight_places one = rw one

  misled-clear :
      (r : Receiver K) (d : ℕ) (datagram : List ℕ) (i : ℕ)
      → IsClear k r
      → get_or (misled r datagram d).flags i false ≡ false
  unfolding misled
  misled-clear r d datagram i h =
      still_clear r.flags (r.cycle % max_buffered k) i h.clear
        (omega (arith, h.size, mod_bound r.cycle (max_buffered k), ranges v))

  -- One copy of a datagram that is one buffer ahead: the receiver moves on by one cycle.
  misled-once :
      (r : Receiver K) (now d : ℕ) (datagram : List ℕ)
      → k.window_size ≡ 1
      → IsClear k r
      → length datagram ≡ datagram_size k
      → r.cycle + max_buffered k < max_cycle k
      → header_cycle rc5 v sink r datagram ≡ d
      → d ≡ r.cycle + max_buffered k
      → IsTimely r now datagram
      → (handle_datagram rc5 k sink r now datagram).0
        ≡ misled r (open_header rc5 k sink r datagram) d
  misled-once r now d datagram one h size room e ahead timely =
      let gap : (d + max_cycle k - r.cycle) % max_cycle k ≡ max_buffered k =
        omega (arith, mod_cases (d + max_cycle k - r.cycle) (max_cycle k) (omega arith)) in
      let same : d % max_buffered k ≡ r.cycle % max_buffered k =
        rw ahead (add-mod_right r.cycle (max_buffered k)) in
      let opened = open_header rc5 k sink r datagram in
      ap (λ w. w.0)
        (handle-accept r now (max_buffered k) datagram (rw e gap) (omega (arith, eight_places one))
          timely)
      ∙ (rw e (
            accept-single r d (max_buffered k) opened one
              (length-open_header rc5 v sink r datagram ∙ size) (omega arith) gap (omega arith)
              (h.clear (d % max_buffered k)))
          ∙ advance-misled (max_buffered k) r d opened h (omega (arith, ranges v))
              (omega (arith, ranges v)) (omega (arith, ranges v)) same)

  misled-again :
      (r q : Receiver K) (later d : ℕ) (datagram opened : List ℕ)
      → k.window_size ≡ 1
      → IsClear k r
      → length datagram ≡ datagram_size k
      → r.cycle + max_buffered k < max_cycle k
      → d ≡ r.cycle + max_buffered k
      → header_cycle rc5 v sink q datagram ≡ d
      → q ≡ misled r opened d
      → IsTimely q later datagram
      → (handle_datagram rc5 k sink q later datagram).0.sink
        ≡ give rc5 v sink q.sink
            (payload_at rc5 q.cipher k.size (open_header rc5 k sink q datagram) (d % k.window_size))
  misled-again r q later d datagram opened one h size room ahead e eq timely =
      let onward : q.cycle ≡ r.cycle + 1 =
        ap (λ w. w.cycle) eq ∙ misled-cycle r opened d (omega (arith, ranges v)) in
      let gap : (d + max_cycle k - q.cycle) % max_cycle k ≡ max_buffered k - 1 = omega (
        arith,
        onward,
        ranges v,
        mod_cases (d + max_cycle k - q.cycle) (max_cycle k) (omega (arith, onward)),
      ) in
      ap (λ w. w.0.sink)
        (handle-accept q later (max_buffered k - 1) datagram (rw e gap)
          (omega (arith, eight_places one)) timely)
      ∙ (rw e (
            ap (λ w. w.sink)
              (accept-single q d (max_buffered k - 1) (open_header rc5 k sink q datagram) one
                (length-open_header rc5 v sink q datagram ∙ size) (omega arith) gap (omega arith)
                (ap (λ w. get_or w.flags (d % max_buffered k) false) eq
                  ∙ misled-clear r d opened (d % max_buffered k) h)))
          ∙ (sink-advance v (max_buffered k) (taken q (open_header rc5 k sink q datagram) d)).0)

  -- With a window of one slot and nothing buffered, a datagram exactly MAX_BUFFERED cycles ahead,
  -- with no wrap between, that holds a payload and arrives in time twice: the payload is handed
  -- over twice.
  pub handle_datagram_repeats :
      (r : Receiver K) (now later : ℕ) (datagram p : List ℕ)
      → k.window_size ≡ 1
      → IsClear k r
      → length datagram ≡ datagram_size k
      → r.cycle + max_buffered k < max_cycle k
      → header_cycle rc5 v sink r datagram ≡ r.cycle + max_buffered k
      → payload_at rc5 r.cipher k.size (open_header rc5 k sink r datagram) 0 ≡ some p
      → IsTimely r now datagram
      → IsTimely r later datagram
      → let q = (handle_datagram rc5 k sink r now datagram).0 in
        (handle_datagram rc5 k sink q later datagram).0.sink ≡ sink.handle (sink.handle r.sink p) p
  handle_datagram_repeats r now later datagram p one h size room e holds first second =
      let d = r.cycle + max_buffered k in
      let opened = open_header rc5 k sink r datagram in
      let q = (handle_datagram rc5 k sink r now datagram).0 in
      let eq = misled-once r now d datagram one h size room e refl first in
      let keys : q.cipher ≡ r.cipher = ap (λ w. w.cipher) eq ∙ (misled-rest r opened d).0 in
      let reopened : open_header rc5 k sink q datagram ≡ opened =
        open_header_cipher q r datagram keys in
      let slot : d % k.window_size ≡ 0 = rw one (omega arith) in
      let shown : payload_at rc5 q.cipher k.size (open_header rc5 k sink q datagram)
            (d % k.window_size)
          ≡ some p =
        rw (keys, reopened, slot) holds in
      let once : q.sink ≡ sink.handle r.sink p =
        ap (λ w. w.sink) eq
        ∙ (misled-rest r opened d).1
        ∙ ap (give rc5 v sink r.sink) (
            let at_slot : payload_at rc5 r.cipher k.size opened (d % k.window_size) ≡ some p =
              rw slot holds in
            at_slot) in
      misled-again r q later d datagram opened one h size room refl
        (ap (λ b. from_le_bytes (slice b 0 2)) reopened ∙ e) eq (rw reopened second)
      ∙ ap₂ (give rc5 v sink) once shown
