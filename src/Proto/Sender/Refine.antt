-- ===== src/Proto/Sender/Refine.antt =====
-- A sender is a ring of the last `WINDOW_SIZE` payloads: polling it puts the payload of the current
-- cycle into the ring, and sends the whole ring if it holds anything.
use longboy.Prelude.{
  ℕ, zero, suc, ◌+◌, ◌*◌, ◌%◌, ◌^◌, ◌<◌, ◌≡◌, refl, sym, ap, ◌∙◌, arith, Bool, true, false, Option,
  none, some, List, [], ◌∷◌, ◌++◌, map, length, get_or, set, replicate, any, if◌then◌else◌,
  length-set, length-replicate, replicate-append, Bool-cases, inl, inr,
}
use longboy.Prelude.Slices.{slice, write, write-write, slice-write_self, write_front, write-nil}
use longboy.Prelude.Modular.{mod_bound, mod_below}
use longboy.Prelude.Bytes.{to_le_bytes}
use longboy.Proto.Constants.{Constants, IsValid, datagram_size, max_cycle}
use longboy.Proto.Constants.Bounds.{ranges}
use longboy.Proto.Cipher.{Rc5, Cipher, encrypt_slot}
use longboy.Proto.Cipher.RoundTrip.{length-encrypt_header, length-encrypt_slot}
use longboy.Proto.Sender.{Source, Sender, slot_start, new, stamp, store, transmit, poll_datagram}
use longboy.Proto.Sender.Frame.{
  HasSize, Sized, get_or-HasSize, set-Sized, header, length-header, slot_bytes, body,
  length-slot_bytes, slice-frame, write-frame, slot-fits,
}

abbrev is_some : Option (List ℕ) → Bool
is_some none = false
is_some (some p) = true

-- The flags that go with a ring of payloads.
abbrev pub present : List (Option (List ℕ)) → List Bool
present = map is_some

set-present :
    (ps : List (Option (List ℕ))) (i : ℕ) (p : Option (List ℕ))
    → set (present ps) i (is_some p) ≡ present (set ps i p)
set-present [] i p = refl
set-present (o ∷ ps) zero p = refl
set-present (o ∷ ps) (suc i) p = ap (◌∷◌ (is_some o)) (set-present ps i p)

-- What the source's answer puts into the ring.
abbrev pub input : Bool → List ℕ → Option (List ℕ)
input true slot = some slot
input false slot = none

pub input-HasSize :
    (size : ℕ) (ready : Bool) (slot : List ℕ) → length slot ≡ size → HasSize size (input ready slot)
input-HasSize size true slot h = h
input-HasSize size false slot h = tt

none-present : (n : ℕ) → replicate n false ≡ present (replicate n none)
none-present zero = refl
none-present (suc n) = ap (◌∷◌ false) (none-present n)

none-Sized : (size n : ℕ) → Sized size (replicate n none)
none-Sized size zero = tt
none-Sized size (suc n) = (tt, none-Sized size n)

module _ (rc5 : Rc5) (k : Constants) {S : Type 0} where
  -- The sender holds the ring `ps`; `lead` are the four bytes in front of it.
  pub record Carries (s : Sender S) (ps : List (Option (List ℕ))) (lead : List ℕ) : Type 0 where
    pub in_ring : s.cycle < max_cycle k
    pub window : length ps ≡ k.window_size
    pub sized : Sized k.size ps
    pub flags : s.flags ≡ present ps
    pub lead_size : length lead ≡ 4
    pub buffer : s.buffer ≡ lead ++ body rc5 s.cipher k.size ps

  -- `lead ++ body` of the ring, as the state behind a poll.
  abbrev holding : Sender S → List (Option (List ℕ)) → List ℕ → S → Sender S
  holding s ps lead source = record {
    source = source;
    cipher = s.cipher;
    cycle = s.cycle;
    flags = present ps;
    buffer = lead ++ body rc5 s.cipher k.size ps;
  }

  stamp_lem :
      (s : Sender S) (timestamp : ℕ) (lead rest : List ℕ)
      → s.cycle < 2 ^ 16
      → length lead ≡ 4
      → s.buffer ≡ lead ++ rest
      → stamp rc5 s timestamp ≡ header rc5 s.cipher s.cycle timestamp ++ rest
  unfolding stamp header to_le_bytes
  stamp_lem s timestamp (a ∷ b ∷ c ∷ d ∷ []) rest small e h =
      rw (h, mod_below small, write-nil rest)
        (write_front (_ ∷ _ ∷ _ ∷ _ ∷ []) rest _ (length-encrypt_header rc5 s.cipher _ refl))
  stamp_lem s timestamp lead rest small e h = absurd (omega arith)

  store_lem :
      (s : Sender S) (i : ℕ) (ready : Bool) (slot : List ℕ) (source : S)
      (ps : List (Option (List ℕ))) (lead : List ℕ)
      → length lead ≡ 4
      → Sized k.size ps
      → s.flags ≡ present ps
      → i < length ps
      → length slot ≡ k.size
      → store rc5 k s i (lead ++ body rc5 s.cipher k.size ps) ready slot source
        ≡ holding s (set ps i (input ready slot)) lead source
  unfolding store
  store_lem s i true slot source ps lead e sized flags lt hs =
      let start = slot_start k.size i in
      let frame = lead ++ body rc5 s.cipher k.size ps in
      let read : slice (write frame start slot) start k.size ≡ slot =
        slice-write_self frame start k.size slot hs
          (slot-fits rc5 s.cipher k.size lead ps i e sized lt) in
      let buffer =
        ap (λ b. write (write frame start slot) start (encrypt_slot rc5 s.cipher b)) read
        ∙ write-write frame start slot (encrypt_slot rc5 s.cipher slot)
            (sym (length-encrypt_slot rc5 s.cipher slot))
        ∙ write-frame rc5 s.cipher k.size lead ps i (some slot) e sized hs in
      let marks = ap (λ fs. set fs i true) flags ∙ set-present ps i (some slot) in
      λ j. record s { source = source; flags = marks j; buffer = buffer j }
  store_lem s i false slot source ps lead e sized flags lt hs =
      let start = slot_start k.size i in
      let frame = lead ++ body rc5 s.cipher k.size ps in
      let buffer =
        write-write frame start slot (replicate k.size 0) (hs ∙ sym (length-replicate k.size 0))
        ∙ write-frame rc5 s.cipher k.size lead ps i none e sized tt in
      let marks = ap (λ fs. set fs i false) flags ∙ set-present ps i none in
      λ j. record s { source = source; flags = marks j; buffer = buffer j }

module _ (rc5 : Rc5) {k : Constants} (v : IsValid k) {S : Type 0} (source : Source k.size S)
    (s : Sender S) (timestamp : ℕ) (ps : List (Option (List ℕ))) (lead : List ℕ)
    (carries : Carries rc5 k s ps lead) where
  -- The answer of the source, shown the slot of the cycle that comes round.
  abbrev pub answer : Bool × List ℕ × S
  answer =
      source.poll s.source
        (slot_bytes rc5 s.cipher k.size (get_or ps (s.cycle % k.window_size) none))

  abbrev pub ring : List (Option (List ℕ))
  ring = set ps (s.cycle % k.window_size) (input answer.0 answer.1)

  -- The sender behind the poll, before it decides whether to send.
  abbrev pub polled : Sender S
  polled = holding rc5 k s ring (header rc5 s.cipher s.cycle timestamp) answer.2

  answer_size : length answer.1 ≡ k.size
  answer_size = source.length-poll s.source _ (
      length-slot_bytes rc5 s.cipher k.size _
        (get_or-HasSize k.size ps (s.cycle % k.window_size) carries.sized))

  carried :
      (cycle : ℕ)
      → cycle < max_cycle k
      → Carries rc5 k (record polled { cycle = cycle }) ring (header rc5 s.cipher s.cycle timestamp)
  carried cycle h = record {
    in_ring = h;
    window = length-set ps (s.cycle % k.window_size) (input answer.0 answer.1) ∙ carries.window;
    sized =
        set-Sized k.size ps (s.cycle % k.window_size) (input answer.0 answer.1) carries.sized
          (input-HasSize k.size answer.0 answer.1 answer_size);
    flags = refl;
    lead_size = length-header rc5 s.cipher s.cycle timestamp;
    buffer = refl;
  }

  poll_datagram-polled : poll_datagram rc5 k source s timestamp ≡ transmit rc5 k polled
  unfolding poll_datagram
  poll_datagram-polled =
      let i = s.cycle % k.window_size in
      let inside : i < length ps =
        omega (arith, carries.window, mod_bound s.cycle k.window_size v.window_pos) in
      let stamped =
        stamp_lem rc5 k s timestamp lead (body rc5 s.cipher k.size ps)
          (omega (arith, carries.in_ring, ranges v)) carries.lead_size carries.buffer in
      let leads = length-header rc5 s.cipher s.cycle timestamp in
      rw (stamped, slice-frame rc5 s.cipher k.size _ ps i leads carries.sized inside)
        (ap (transmit rc5 k) (
          store_lem rc5 k s i answer.0 answer.1 answer.2 ps _ leads carries.sized carries.flags
            inside answer_size))

  -- One poll is an update of a ring of payloads: the source is shown the old contents of the slot
  -- that comes round, its answer replaces them, and the datagram is the header of this cycle and
  -- the whole ring. If the ring is empty nothing is sent and the cycle stays; otherwise the cycle
  -- goes on by one round the ring.
  pub poll_datagram_refines : poll_datagram rc5 k source s timestamp ≡ (
      if any (present ring)
      then (
        record polled { cycle = (s.cycle + 1) % max_cycle k },
        some (header rc5 s.cipher s.cycle timestamp ++ body rc5 s.cipher k.size ring),
      )
      else (polled, none))
  unfolding transmit
  poll_datagram_refines = poll_datagram-polled

  -- The two cases of it.
  pub poll_datagram-sends :
      any (present ring) ≡ true
      → poll_datagram rc5 k source s timestamp ≡ (
        record polled { cycle = (s.cycle + 1) % max_cycle k },
        some (header rc5 s.cipher s.cycle timestamp ++ body rc5 s.cipher k.size ring),
      )
  poll_datagram-sends h = poll_datagram_refines ∙ rw h

  pub poll_datagram-silent :
      any (present ring) ≡ false → poll_datagram rc5 k source s timestamp ≡ (polled, none)
  poll_datagram-silent h = poll_datagram_refines ∙ rw h

  -- Every poll of a sender that holds a ring of payloads leaves it holding the updated ring
  -- behind the header of the cycle polled for.
  pub poll_datagram-Carries :
      Carries rc5 k
        (poll_datagram rc5 k source s timestamp).0
        ring
        (header rc5 s.cipher s.cycle timestamp)
  poll_datagram-Carries = rw poll_datagram_refines (elim (Bool-cases (any (present ring))) [
    | inl e ↦ rw e (carried ((s.cycle + 1) % max_cycle k) (mod_bound _ _ (omega (arith, ranges v))))
    | inr e ↦ rw e (carried s.cycle carries.in_ring)
  ])

zeros :
    (rc5 : Rc5) (c : Cipher) (size n : ℕ)
    → body rc5 c size (replicate n none) ≡ replicate (size * n) 0
zeros rc5 c size zero = let e : size * 0 ≡ 0 = omega arith in rw e
zeros rc5 c size (suc n) =
    let e : size * suc n ≡ size + size * n = omega arith in
    rw (e, zeros rc5 c size n) (replicate-append size (size * n) 0)

module _ (rc5 : Rc5) {k : Constants} (v : IsValid k) {S : Type 0} where
  -- A new sender carries an empty ring.
  pub new-Carries :
      (key : ℕ) (source : S)
      → Carries rc5 k (new k key source) (replicate k.window_size none) (replicate 4 0)
  unfolding new datagram_size
  new-Carries key source = record {
    in_ring = omega (arith, ranges v);
    window = length-replicate k.window_size none;
    sized = none-Sized k.size k.window_size;
    flags = none-present k.window_size;
    lead_size = refl;
    buffer =
        unfold datagram_size in
        sym (replicate-append 4 (k.size * k.window_size) 0)
        ∙ ap (◌++◌ (replicate 4 0)) (sym (zeros rc5 _ k.size k.window_size));
  }
