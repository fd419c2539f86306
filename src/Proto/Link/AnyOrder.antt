-- ===== src/Proto/Link/AnyOrder.antt =====
-- Datagrams of one sender that reach a receiver in any order, some never and some more than once,
-- before the cycle wraps.
use longboy.Prelude.{
  ℕ, zero, suc, ◌+◌, ◌-◌, ◌%◌, ◌^◌, ◌≤◌, ◌<◌, ◌≡◌, refl, sym, ◌∙◌, ap, subst, arith, Bool, true,
  false, Option, none, List, ◌++◌, foldl, length, get_or, dec_lt, inl, inr, Bool-cases, lt→ltb,
  ltb_of_le,
}
use longboy.Prelude.Slices.{slice}
use longboy.Prelude.Bytes.{from_le_bytes}
use longboy.Prelude.Modular.{mod_bound, mod_cases}
use longboy.Proto.Constants.{Constants, IsValid, datagram_size, max_cycle, max_buffered}
use longboy.Proto.Constants.Bounds.{ranges}
use longboy.Proto.Cipher.{Rc5, Cipher}
use longboy.Proto.Sender.Frame.{Sized, header, length-header, body, length-frame}
use longboy.Proto.Receiver.{Sink, Receiver, handle_datagram}
use longboy.Proto.Receiver.Slots.{give}
use longboy.Proto.Receiver.Cycles.{IsWaiting}
use longboy.Proto.Receiver.Invariant.{handle_datagram_safe}
use longboy.Proto.Receiver.Rejects.{handle_datagram-passed}
use longboy.Proto.Receiver.Arrived.{with_cycles, news, Agrees, Agrees-same}
use longboy.Proto.Receiver.Arrived.Rounds.{with_cycles_done, with_cycles-zero, news_done}
use longboy.Proto.Receiver.AnyOrder.{hand, Brought, accept-news}
use longboy.Proto.Link.Frames.{
  AllShow, words, frame_size, open_header-frame, cycle_word, timestamp_word, payload_at-frame,
  length-words,
}

-- A datagram of the sender with its cycle, timestamp and ring of payloads, and when it arrives.
pub record Arrival : Type 0 where
  pub cycle : ℕ
  pub timestamp : ℕ
  pub ring : List (Option (List ℕ))
  pub now : ℕ

module _ (rc5 : Rc5) (k : Constants) (cipher : Cipher) where
  abbrev pub frame : Arrival → List ℕ
  frame a = header rc5 cipher a.cycle a.timestamp ++ body rc5 cipher k.size a.ring

  -- The datagram of a sender that puts the payload `inputs x` into the slot of cycle `x`, in time,
  -- long enough before the cycle wraps.
  pub record IsTimely (inputs : ℕ → Option (List ℕ)) (a : Arrival) : Type 0 where
    pub clear : a.cycle + max_buffered k + 257 < max_cycle k
    pub sized : Sized k.size a.ring
    pub window : length a.ring ≡ k.window_size
    pub shows : AllShow rc5 cipher k.size a.ring
    pub holds :
        (x : ℕ)
        → x ≤ a.cycle
        → a.cycle < x + k.window_size
        → get_or a.ring (x % k.window_size) none ≡ inputs x
    pub stamped : a.timestamp < 2 ^ 16
    pub late : (a.now + 2 ^ 16 - a.timestamp) % 2 ^ 16 ≤ 2048

-- No cycle that has not arrived lies as much as a buffer, or 257 cycles, back.
abbrev pub InReach : Constants → (ℕ → Bool) → ℕ → Type 0
InReach k arrived d = (x : ℕ) → arrived x ≡ false → (d < x + max_buffered k) × (d < x + 257)

-- Two ways of handing over agree on the cycles that are handed over.
hand_same :
    {K : Type 0} (f g : K → ℕ → K) (n i d : ℕ) (arrived : ℕ → Bool) (s : K)
    → ((s : K) (x : ℕ) → x ≤ d → d < x + (i + n) → f s x ≡ g s x)
    → foldl f s (news n i d arrived) ≡ foldl g s (news n i d arrived)
hand_same f g zero i d arrived s h = refl
hand_same f g (suc n) i d arrived s h = elim (dec_lt d i) [
  | yes past ↦ rw (lt→ltb d i past)
  | no here ↦ rw (ltb_of_le d i (omega arith)) (elim (Bool-cases (arrived (d - i))) [
    | inl old ↦ rw old (hand_same f g n (i + 1) d arrived s (λ t x a b. h t x a (omega arith)))
    | inr fresh ↦ rw fresh (
        ap (λ t. foldl f t (news n (i + 1) d arrived)) (h s (d - i) (omega arith) (omega arith))
        ∙ hand_same f g n (i + 1) d arrived (g s (d - i)) (λ t x a b. h t x a (omega arith)))
  ])
]

module _ (rc5 : Rc5) {k : Constants} (v : IsValid k) {K : Type 0} (sink : Sink K)
    (inputs : ℕ → Option (List ℕ)) where
  -- The inputs of these cycles, handed over one by one.
  abbrev pub deliver : K → List ℕ → K
  deliver = foldl λ s x. give rc5 v sink s (inputs x)

  pub record Knows (arrived : ℕ → Bool) (cipher : Cipher) (r : Receiver K) : Type 0 where
    pub agrees : Agrees k arrived r
    pub waits : IsWaiting k r
    pub cipher_eq : r.cipher ≡ cipher

  module _ (arrived : ℕ → Bool) (r : Receiver K) (a : Arrival) (agrees : Agrees k arrived r)
      (t : IsTimely rc5 k r.cipher inputs a) where
    abbrev d : ℕ
    d = a.cycle

    abbrev opened : List ℕ
    opened = words rc5 r.cipher d a.timestamp ++ body rc5 r.cipher k.size a.ring

    word : d < 2 ^ 16
    word = let clear = t.clear in omega (arith, ranges v)

    -- All of it has arrived before.
    arrival-passed :
        d < r.cycle → (handle_datagram rc5 k sink r a.now (frame rc5 k r.cipher a)).0 ≡ r
    arrival-passed passed =
        let last = agrees.bound (r.cycle - 1) (agrees.behind (r.cycle - 1) (omega arith)) in
        let back : d ≡ (r.cycle + max_cycle k - (r.cycle - d)) % max_cycle k = omega (
          arith,
          agrees.in_ring,
          mod_cases (r.cycle + max_cycle k - (r.cycle - d)) (max_cycle k)
              (omega (arith, agrees.in_ring)),
        ) in
        handle_datagram-passed rc5 v sink r a.now (r.cycle - d) (frame rc5 k r.cipher a)
          (record { in_ring = agrees.in_ring; size = agrees.size }) (omega arith)
          (omega (arith, ranges v))
          (ap (λ b. from_le_bytes (slice b 0 2))
              (open_header-frame rc5 v sink r d a.timestamp (body rc5 r.cipher k.size a.ring))
            ∙ cycle_word rc5 r.cipher d a.timestamp (body rc5 r.cipher k.size a.ring) word
            ∙ back)

    -- It reaches into the buffer.
    arrival-Brought :
        r.cycle ≤ d
        → d < r.cycle + max_buffered k
        → d < r.cycle + 257
        → Brought rc5 v sink arrived d r
            (hand rc5 v sink r opened r.sink (news k.window_size 0 d arrived))
            (handle_datagram rc5 k sink r a.now (frame rc5 k r.cipher a)).0
    unfolding handle_datagram
    arrival-Brought ahead room few =
        let rest = body rc5 r.cipher k.size a.ring in
        let clear = t.clear in
        let diff : (d + max_cycle k - r.cycle) % max_cycle k ≡ d - r.cycle =
          omega (arith, mod_cases (d + max_cycle k - r.cycle) (max_cycle k) (omega arith)) in
        let size : length opened ≡ datagram_size k =
          length-frame rc5 r.cipher k.size (words rc5 r.cipher d a.timestamp) a.ring
            (length-words rc5 r.cipher d a.timestamp) t.sized
          ∙ frame_size rc5 v sink a.ring t.window in
        rw
          (
            open_header-frame rc5 v sink r d a.timestamp rest,
            cycle_word rc5 r.cipher d a.timestamp rest word,
            timestamp_word rc5 r.cipher d a.timestamp rest t.stamped,
            diff,
            ltb_of_le 256 (d - r.cycle) (omega arith),
            ltb_of_le 2048 _ t.late,
          )
          (accept-news rc5 v sink d r opened arrived agrees size ahead room clear)

    frame_size_lem : length (frame rc5 k r.cipher a) ≡ datagram_size k
    frame_size_lem =
        length-frame rc5 r.cipher k.size (header rc5 r.cipher d a.timestamp) a.ring
          (length-header rc5 r.cipher d a.timestamp) t.sized
        ∙ frame_size rc5 v sink a.ring t.window

    -- What the datagram holds for its cycles are the inputs.
    hand-deliver :
        hand rc5 v sink r opened r.sink (news k.window_size 0 d arrived)
        ≡ deliver r.sink (news k.window_size 0 d arrived)
    hand-deliver = hand_same _ _ k.window_size 0 d arrived r.sink λ s x le new.
        ap (give rc5 v sink s) (
          payload_at-frame rc5 r.cipher k.size d a.timestamp a.ring (x % k.window_size) t.sized
            t.shows (omega (arith, t.window, mod_bound x k.window_size v.window_pos))
          ∙ t.holds x le (omega arith))

    -- One datagram, passed or not: it brings what is new in it, and the receiver knows.
    pub arrival-Knows :
        IsWaiting k r
        → InReach k arrived d
        → let r' = (handle_datagram rc5 k sink r a.now (frame rc5 k r.cipher a)).0 in
          Knows (with_cycles k.window_size d arrived) r.cipher r'
          × (r'.sink ≡ deliver r.sink (news k.window_size 0 d arrived))
    arrival-Knows waits reach =
        let first : arrived r.cycle ≡ false =
          sym (agrees.buffered r.cycle (omega arith) (omega (arith, ranges v))) ∙ waits in
        let near = reach r.cycle first in
        elim (dec_lt d r.cycle) [
          | yes passed ↦
              let old : (x : ℕ) → x + 0 ≤ d → arrived x ≡ true =
                λ x l. agrees.behind x (omega arith) in
              let all : 0 + k.window_size ≡ k.window_size = omega arith in
              subst
                (λ q.
                  Knows (with_cycles k.window_size d arrived) r.cipher q
                  × (q.sink ≡ deliver r.sink (news k.window_size 0 d arrived)))
                (sym (arrival-passed passed))
                (
                  record {
                    agrees =
                        Agrees-same arrived (with_cycles k.window_size d arrived) r
                          (λ x.
                            ap (λ (m : ℕ). with_cycles m d arrived x) (sym all)
                            ∙ with_cycles_done arrived 0 d k.window_size old x
                            ∙ with_cycles-zero arrived d x)
                          agrees;
                    waits = waits;
                    cipher_eq = refl;
                  },
                  rw (news_done k.window_size 0 d arrived old),
                )
          | no ahead ↦
              let b = arrival-Brought (omega arith) near.0 near.1 in
              let safe =
                handle_datagram_safe rc5 v sink r a.now (frame rc5 k r.cipher a)
                  (record { in_ring = agrees.in_ring; size = agrees.size }) waits frame_size_lem in
              (
                record { agrees = b.agrees; waits = safe.waits; cipher_eq = b.cipher },
                b.sink_eq ∙ hand-deliver,
              )
        ]
