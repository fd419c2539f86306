-- ===== src/Proto/Receiver/AnyOrder.antt =====
-- What a datagram brings to a receiver that knows what has arrived.
use longboy.Prelude.{
  ℕ, zero, suc, ◌+◌, ◌-◌, ◌%◌, ◌≤◌, ◌<◌, ◌≡◌, refl, subst, sym, ◌∙◌, ap, arith, Bool, true, false,
  List, foldl, length, get_or, dec_lt, inl, inr, Bool-cases, lt→ltb, ltb_of_le,
}
use longboy.Prelude.Modular.{mod_cases}
use longboy.Proto.Constants.{Constants, IsValid, datagram_size, max_cycle, max_buffered}
use longboy.Proto.Constants.Bounds.{ranges}
use longboy.Proto.Cipher.{Rc5}
use longboy.Proto.Receiver.{Sink, Receiver, sink_input, accept}
use longboy.Proto.Receiver.Slots.{
  cycle_at, payload_at, Intact, give, sink_slot-old, sink_slot-new, opened_slot-Intact,
  payload_at-Intact, Intact-next,
}
use longboy.Proto.Receiver.Cycles.{sink-advance}
use longboy.Proto.Receiver.Arrived.{with_cycles, news, Agrees, Agrees-same, advance-Agrees}
use longboy.Proto.Receiver.Arrived.Rounds.{
  with_cycles-at, with_cycles-old, with_cycles-zero, with_cycles_done, news_done, old_round-Agrees,
  new_round-Agrees,
}

module _ {k : Constants} (v : IsValid k) where
  cycle_at-sub : (d i : ℕ) → i ≤ d → d < max_cycle k → cycle_at k d i ≡ d - i
  cycle_at-sub d i le h = omega (arith, mod_cases (d + max_cycle k - i) (max_cycle k) (omega arith))

  -- A round within the buffer, and one that has come to what lies behind.
  near :
      (c d i : ℕ)
      → i ≤ d
      → c ≤ d - i
      → d < c + max_buffered k
      → d < max_cycle k
      → (cycle_at k d i + max_cycle k - c) % max_cycle k < max_buffered k
  near c d i le ahead room h = omega (
    arith,
    ranges v,
    cycle_at-sub d i le h,
    mod_cases (cycle_at k d i + max_cycle k - c) (max_cycle k)
        (omega (arith, cycle_at-sub d i le h)),
  )

  far :
      (c d i : ℕ)
      → c ≤ d
      → d < c + i
      → i < k.window_size
      → d + max_buffered k < max_cycle k
      → max_buffered k < (cycle_at k d i + max_cycle k - c) % max_cycle k
  far c d i le behind w h = omega (
    arith,
    ranges v,
    mod_cases (d + max_cycle k - i) (max_cycle k) (omega (arith, ranges v)),
    mod_cases (cycle_at k d i + max_cycle k - c) (max_cycle k) (
        omega (
          arith,
          ranges v,
          mod_cases (d + max_cycle k - i) (max_cycle k) (omega (arith, ranges v)),
        )),
  )

module _ (rc5 : Rc5) {k : Constants} (v : IsValid k) {K : Type 0} (sink : Sink K) where
  -- The payloads of these cycles, as a datagram holds them, handed over one by one.
  abbrev pub hand : Receiver K → List ℕ → K → List ℕ → K
  hand r datagram =
      foldl λ s x. give rc5 v sink s (payload_at rc5 r.cipher k.size datagram (x % k.window_size))

  pub record Brought (arrived : ℕ → Bool) (d : ℕ) (r : Receiver K) (given : K) (r' : Receiver K)
      : Type 0 where
    pub agrees : Agrees k (with_cycles k.window_size d arrived) r'
    pub cipher : r'.cipher ≡ r.cipher
    pub sink_eq : r'.sink ≡ given

  -- The rounds stop where all that is older has arrived.
  stopped :
      (d n i : ℕ) (r : Receiver K) (arrived : ℕ → Bool) (datagram : List ℕ)
      → Agrees k (with_cycles i d arrived) r
      → i + n ≡ k.window_size
      → d < r.cycle + i
      → Brought arrived d r (hand r datagram r.sink (news n i d arrived)) r
  stopped d n i r arrived datagram h e past =
      let old : (x : ℕ) → x + i ≤ d → arrived x ≡ true =
        λ x l. sym (with_cycles-old arrived i d x l) ∙ h.behind x (omega arith) in
      record {
        agrees =
            subst (λ (m : ℕ). Agrees k (with_cycles m d arrived) r) e
              (Agrees-same _ _ r (with_cycles_done arrived i d n old) h);
        cipher = refl;
        sink_eq = rw (news_done n i d arrived old);
      }

  sink_input-news :
      (original : List ℕ) (d n i : ℕ) (r : Receiver K) (datagram : List ℕ) (arrived : ℕ → Bool)
      → Agrees k (with_cycles i d arrived) r
      → Intact k original d i datagram
      → i + n ≡ k.window_size
      → r.cycle ≤ d
      → d < r.cycle + max_buffered k
      → d + max_buffered k + 257 < max_cycle k
      → Brought arrived d r
          (hand r original r.sink (news n i d arrived))
          (sink_input rc5 k sink n i d (r, datagram)).0
  unfolding sink_input
  sink_input-news original d zero i r datagram arrived h same e le room clear =
      let all : i ≡ k.window_size = omega arith in
      record {
        agrees = subst (λ (m : ℕ). Agrees k (with_cycles m d arrived) r) all h;
        cipher = refl;
        sink_eq = refl;
      }
  sink_input-news original d (suc n) i r datagram arrived h same e le room clear =
      elim (dec_lt d (r.cycle + i)) [
        | yes past ↦
            rw (lt→ltb (max_buffered k) _ (far v r.cycle d i le past (omega arith) (omega arith)))
              (stopped d (suc n) i r arrived original h e past)
        | no here ↦
            let inside : i ≤ d = omega arith in
            let sub = cycle_at-sub v d i inside (omega arith) in
            let index = ap (λ (t : ℕ). t % k.window_size) sub in
            let flag : get_or r.flags ((d - i) % max_buffered k) false ≡ arrived (d - i) =
              h.buffered (d - i) (omega arith) (omega arith)
              ∙ (with_cycles-at arrived i d inside).1 in
            rw
              (
                ltb_of_le (max_buffered k) ((cycle_at k d i + max_cycle k - r.cycle) % max_cycle k)
                    (omega (arith, near v r.cycle d i inside (omega arith) room (omega arith))),
                ltb_of_le d i inside,
                sub,
              )
              (elim (Bool-cases (arrived (d - i))) [
                | inl old ↦
                    rw (old, sink_slot-old rc5 v sink (d - i) r datagram (flag ∙ old))
                      (sink_input-news original d n (i + 1) r datagram arrived
                        (old_round-Agrees v arrived i d r inside old h)
                        (Intact-next k original d i datagram same) (omega arith) le room clear)
                | inr fresh ↦
                    let read =
                      payload_at-Intact rc5 r.cipher k original d i datagram (omega arith) same in
                    let read' = rw index at read in
                    let rest =
                      opened_slot-Intact rc5 v sink original d i r datagram (omega arith) same in
                    let rest' = rw index at rest in
                    let b =
                      sink_input-news original d n (i + 1) _ _ arrived
                        (new_round-Agrees v arrived i d r
                          (give rc5 v sink r.sink
                            (payload_at rc5 r.cipher k.size datagram ((d - i) % k.window_size)))
                          inside (omega arith) room clear h)
                        rest' (omega arith) le room clear in
                    rw (fresh, sink_slot-new rc5 v sink (d - i) r datagram same.0 (flag ∙ fresh))
                      (record {
                        agrees = b.agrees;
                        cipher = b.cipher;
                        sink_eq =
                            b.sink_eq
                            ∙ ap
                                (λ p.
                                  hand r original (give rc5 v sink r.sink p)
                                    (news n (i + 1) d arrived))
                                read';
                      })
              ])
      ]

  -- An accepted datagram within the buffer brings exactly the cycles that are new in it.
  pub accept-news :
      (d : ℕ) (r : Receiver K) (datagram : List ℕ) (arrived : ℕ → Bool)
      → Agrees k arrived r
      → length datagram ≡ datagram_size k
      → r.cycle ≤ d
      → d < r.cycle + max_buffered k
      → d + max_buffered k + 257 < max_cycle k
      → Brought arrived d r
          (hand r datagram r.sink (news k.window_size 0 d arrived))
          (accept rc5 k sink d (d - r.cycle) (r, datagram)).0
  unfolding accept
  accept-news d r datagram arrived h size le room clear =
      let start : Agrees k (with_cycles 0 d arrived) r =
        Agrees-same arrived (with_cycles 0 d arrived) r (with_cycles-zero arrived d) h in
      let b =
        sink_input-news datagram d k.window_size 0 r datagram arrived start (size, λ j a c. refl)
          (omega arith) le room clear in
      let (kept, same) =
        sink-advance v (max_buffered k) (sink_input rc5 k sink k.window_size 0 d (r, datagram)).0 in
      rw (ltb_of_le (max_buffered k) (d - r.cycle) (omega arith)) (record {
        agrees = advance-Agrees v (with_cycles k.window_size d arrived) (max_buffered k) _ b.agrees;
        cipher = same ∙ b.cipher;
        sink_eq = kept ∙ b.sink_eq;
      })
