-- ===== src/Proto/Receiver/Invariant.antt =====
-- Whatever a datagram holds, the receiver stays in range, stops at a cycle that has not arrived,
-- and hands over payloads of that datagram only.
use longboy.Prelude.{
  ℕ, zero, suc, ◌+◌, ◌-◌, ◌%◌, ◌^◌, ◌≡◌, refl, sym, ◌∙◌, ap, arith, true, false, Option, none, some,
  List, [], ◌∷◌, foldl, length, get_or, set, length-set, ◌⊎◌, inl, inr, Bool-cases, ltb, ◌||◌,
}
use longboy.Prelude.Slices.{slice, length-write}
use longboy.Prelude.Bytes.{from_le_bytes}
use longboy.Proto.Constants.{Constants, IsValid, datagram_size, max_cycle, max_buffered}
use longboy.Proto.Cipher.{Rc5, Cipher}
use longboy.Proto.Receiver.{
  Sink, Receiver, advance, sink_input, open_header, accept, handle_datagram,
}
use longboy.Proto.Receiver.Slots.{
  cycle_at, index_at, payload_at, Intact, give, sink_slot-old, sink_slot-new, opened_slot-Intact,
  payload_at-Intact, Intact-next,
}
use longboy.Proto.Receiver.Cycles.{
  InRange, IsWaiting, skip_cycles-InRange, skip_cycles_lem, advance-InRange, advance_stops,
  sink-advance,
}

-- `ps` are some of the payloads that the datagram holds for the rounds from `i` on, each taken at
-- most once, newest first.
abbrev pub Selected : Rc5 → Constants → Cipher → List ℕ → ℕ → ℕ → ℕ → List (List ℕ) → Type 0
Selected rc5 k c datagram d zero i ps = ps ≡ []
Selected rc5 k c datagram d (suc n) i ps =
    Selected rc5 k c datagram d n (i + 1) ps
    ⊎ ((p : List ℕ) × (rest : List (List ℕ)) × (payload_at rc5 c k.size datagram (index_at k d i)
          ≡ some p)
        × (ps ≡ p ∷ rest)
        × Selected rc5 k c datagram d n (i + 1) rest)

Selected-nil :
    (rc5 : Rc5) (k : Constants) (c : Cipher) (datagram : List ℕ) (d n i : ℕ)
    → Selected rc5 k c datagram d n i []
Selected-nil rc5 k c datagram d zero i = refl
Selected-nil rc5 k c datagram d (suc n) i = inl (Selected-nil rc5 k c datagram d n (i + 1))

module _ (rc5 : Rc5) {k : Constants} (v : IsValid k) {K : Type 0} (sink : Sink K) where
  -- What the rounds from `i` on leave behind.
  record Rounds (original : List ℕ) (d n i : ℕ) (r r' : Receiver K) : Type 0 where
    range : InRange k r'
    cycle : r'.cycle ≡ r.cycle
    cipher : r'.cipher ≡ r.cipher
    given :
        (ps : List (List ℕ)) × Selected rc5 k r.cipher original d n i ps
        × (r'.sink ≡ foldl sink.handle r.sink ps)

  passed :
      (original : List ℕ) (d n i : ℕ) (r r' : Receiver K)
      → Rounds original d n (i + 1) r r'
      → Rounds original d (suc n) i r r'
  passed original d n i r r' h = record {
    range = h.range;
    cycle = h.cycle;
    cipher = h.cipher;
    given = (h.given.0, inl h.given.1, h.given.2);
  }

  -- `sink_slot` on a cycle that is not flagged, in front of the later rounds.
  later :
      (original : List ℕ) (d n i : ℕ) (r r' : Receiver K) (p : Option (List ℕ))
      → payload_at rc5 r.cipher k.size original (index_at k d i) ≡ p
      → Rounds original d n
          (i + 1)
          (record r {
            sink = give rc5 v sink r.sink p;
            flags = set r.flags (cycle_at k d i % max_buffered k) true;
          })
          r'
      → Rounds original d (suc n) i r r'
  later original d n i r r' none e h = record {
    range = h.range;
    cycle = h.cycle;
    cipher = h.cipher;
    given = (h.given.0, inl h.given.1, h.given.2);
  }
  later original d n i r r' (some p) e h = record {
    range = h.range;
    cycle = h.cycle;
    cipher = h.cipher;
    given = (p ∷ h.given.0, inr (p, h.given.0, e, refl, h.given.1), h.given.2);
  }

  sink_input-Rounds :
      (original : List ℕ) (d n i : ℕ) (r : Receiver K) (datagram : List ℕ)
      → InRange k r
      → i + n ≡ k.window_size
      → Intact k original d i datagram
      → Rounds original d n i r (sink_input rc5 k sink n i d (r, datagram)).0
  unfolding sink_input
  sink_input-Rounds original d zero i r datagram range e same = record {
    range = range;
    cycle = refl;
    cipher = refl;
    given = ([], refl, refl);
  }
  sink_input-Rounds original d (suc n) i r datagram range e same =
      elim (Bool-cases
        (ltb (max_buffered k) ((cycle_at k d i + max_cycle k - r.cycle) % max_cycle k))) [
          | inl far ↦ rw far (record {
            range = range;
            cycle = refl;
            cipher = refl;
            given = ([], Selected-nil rc5 k r.cipher original d (suc n) i, refl);
          })
          | inr near ↦
              rw near (elim (Bool-cases (get_or r.flags (cycle_at k d i % max_buffered k) false)) [
                | inl old ↦ rw (sink_slot-old rc5 v sink (cycle_at k d i) r datagram old) (
                    passed original d n i r _ (
                      sink_input-Rounds original d n (i + 1) r datagram range (omega arith)
                        (Intact-next k original d i datagram same)))
                | inr fresh ↦
                    rw (sink_slot-new rc5 v sink (cycle_at k d i) r datagram same.0 fresh) (
                      later original d n i r _ _
                        (sym (
                          payload_at-Intact rc5 r.cipher k original d i datagram (omega arith)
                            same))
                        (sink_input-Rounds original d n (i + 1) _ _
                          (record {
                            in_ring = range.in_ring;
                            size =
                                length-set r.flags (cycle_at k d i % max_buffered k) true
                                ∙ range.size;
                          })
                          (omega arith)
                          (opened_slot-Intact rc5 v sink original d i r datagram (omega arith)
                            same)))
              ])
        ]

  -- A datagram as it stands behind `open_header`, and the two words of its header.
  abbrev pub header_cycle : Receiver K → List ℕ → ℕ
  header_cycle r datagram = from_le_bytes (slice (open_header rc5 k sink r datagram) 0 2)

  -- What is promised of the receiver `r'` that comes of `r` and an opened datagram.
  pub record Safe (r : Receiver K) (datagram : List ℕ) (d : ℕ) (r' : Receiver K) : Type 0 where
    pub range : InRange k r'
    pub waits : IsWaiting k r'
    pub given :
        (ps : List (List ℕ)) × Selected rc5 k r.cipher datagram d k.window_size 0 ps
        × (r'.sink ≡ foldl sink.handle r.sink ps)

  settle :
      (d : ℕ) (c : Receiver K) (datagram : List ℕ)
      → InRange k c
      → length datagram ≡ datagram_size k
      → Safe c datagram d
          (advance k (max_buffered k) (sink_input rc5 k sink k.window_size 0 d (c, datagram)).0)
  settle d c datagram range size =
      let h =
        sink_input-Rounds datagram d k.window_size 0 c datagram range (omega arith)
          (size, λ j a b. refl) in
      record {
        range = advance-InRange v (max_buffered k) _ h.range;
        waits = advance_stops v _ h.range;
        given = (h.given.0, h.given.1, (sink-advance v (max_buffered k) _).0 ∙ h.given.2);
      }

  caught_up :
      (d : ℕ) (r c r' : Receiver K) (datagram : List ℕ)
      → c.sink ≡ r.sink
      → c.cipher ≡ r.cipher
      → Safe c datagram d r'
      → Safe r datagram d r'
  caught_up d r c r' datagram s e h = record {
    range = h.range;
    waits = h.waits;
    given = (h.given.0, rw e at h.given.1, h.given.2 ∙ ap (λ t. foldl sink.handle t h.given.0) s);
  }

  accept-Safe :
      (d diff : ℕ) (r : Receiver K) (datagram : List ℕ)
      → InRange k r
      → length datagram ≡ datagram_size k
      → Safe r datagram d (accept rc5 k sink d diff (r, datagram)).0
  unfolding accept
  accept-Safe d diff r datagram range size = elim (Bool-cases (ltb (max_buffered k) diff)) [
    | inl far ↦
        let skipped = skip_cycles_lem v (diff - max_buffered k) r range in
        rw far (
          caught_up d r _ _ datagram skipped.1 skipped.2
            (settle d _ datagram (skip_cycles-InRange v (diff - max_buffered k) r range) size))
    | inr near ↦ rw near (settle d r datagram range size)
  ]

  pub length-open_header :
      (r : Receiver K) (datagram : List ℕ)
      → length (open_header rc5 k sink r datagram) ≡ length datagram
  unfolding open_header
  length-open_header r datagram = length-write datagram 0 _

  -- For any datagram of the right length at any time: a receiver in range that waits for a cycle
  -- that has not arrived is so again, and its sink has been handed a selection of the payloads
  -- that the datagram holds, newest first, none of them twice.
  pub handle_datagram_safe :
      (r : Receiver K) (timestamp : ℕ) (datagram : List ℕ)
      → InRange k r
      → IsWaiting k r
      → length datagram ≡ datagram_size k
      → Safe r
          (open_header rc5 k sink r datagram)
          (header_cycle r datagram)
          (handle_datagram rc5 k sink r timestamp datagram).0
  unfolding handle_datagram
  handle_datagram_safe r timestamp datagram range waits size =
      let opened = open_header rc5 k sink r datagram in
      let diff = (header_cycle r datagram + max_cycle k - r.cycle) % max_cycle k in
      let late = (timestamp + 2 ^ 16 - from_le_bytes (slice opened 2 2)) % 2 ^ 16 in
      elim (Bool-cases (ltb 256 diff || ltb 2048 late)) [
        | inl e ↦ rw e (record {
          range = range;
          waits = waits;
          given = (
            [],
            Selected-nil rc5 k r.cipher opened (header_cycle r datagram) k.window_size 0,
            refl,
          );
        })
        | inr e ↦ rw e (
            accept-Safe (header_cycle r datagram) diff r opened range
              (length-open_header r datagram ∙ size))
      ]
