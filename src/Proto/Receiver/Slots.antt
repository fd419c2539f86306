-- ===== src/Proto/Receiver/Slots.antt =====
-- What a datagram holds for each cycle, and what handling one slot does.
use longboy.Prelude.{
  ℕ, ◌+◌, ◌-◌, ◌*◌, ◌%◌, ◌≤◌, ◌<◌, ◌≡◌, ◌≢◌, sym, ◌∙◌, ap, arith, true, false, Option, none, some,
  List, length, get_or, set, replicate, dec_lt, inl, inr, Bool-cases, if◌then◌else◌,
}
use longboy.Prelude.Slices.{
  slice, write, length-write, length-slice, slice-write_self, slice-write_before, slice-write_after,
}
use longboy.Prelude.Modular.{mod_bound, mod_apart}
use longboy.Proto.Constants.{Constants, IsValid, datagram_size, max_cycle, max_buffered}
use longboy.Proto.Constants.Bounds.{ranges}
use longboy.Proto.Constants.Indices.{source_index_wrap}
use longboy.Proto.Cipher.{Rc5, Cipher, decrypt_slot}
use longboy.Proto.Cipher.RoundTrip.{length-decrypt_slot}
use longboy.Proto.Sender.{slot_start}
use longboy.Proto.Receiver.{Sink, Receiver, bytes_eq, sink_slot}

-- The cycle of the `i`th round, and its slot in the datagram.
abbrev pub cycle_at : Constants → ℕ → ℕ → ℕ
cycle_at k datagram_cycle i = (datagram_cycle + max_cycle k - i) % max_cycle k

abbrev pub index_at : Constants → ℕ → ℕ → ℕ
index_at k datagram_cycle i = cycle_at k datagram_cycle i % k.window_size

module _ (rc5 : Rc5) (c : Cipher) (size : ℕ) where
  -- The payload in slot `i`: none if the slot is all zeros.
  abbrev pub payload_at : List ℕ → ℕ → Option (List ℕ)
  payload_at datagram i =
      if bytes_eq (slice datagram (slot_start size i) size) (replicate size 0)
      then none
      else some (decrypt_slot rc5 c (slice datagram (slot_start size i) size))

-- Two slots do not overlap.
pub slot_apart :
    (size a b : ℕ) (datagram block : List ℕ)
    → length block ≡ size
    → a ≢ b
    → slice (write datagram (slot_start size a) block) (slot_start size b) size
      ≡ slice datagram (slot_start size b) size
slot_apart size a b datagram block e ne = elim (dec_lt a b) [
  | yes h ↦
      let room : size * a + size ≤ size * b = grind arith in
      slice-write_after datagram (slot_start size a) (slot_start size b) size block (omega arith)
  | no h ↦
      let room : size * b + size ≤ size * a = grind arith in
      slice-write_before datagram (slot_start size a) (slot_start size b) size block (omega arith)
]

pub slot_inside :
    (k : Constants) (i n : ℕ)
    → i < k.window_size
    → n ≡ datagram_size k
    → slot_start k.size i + k.size ≤ n
unfolding datagram_size
slot_inside k i n h e =
    let room : k.size * i + k.size ≤ k.size * k.window_size = grind arith in omega arith

module _ {k : Constants} (v : IsValid k) where
  -- The rounds of one datagram read different slots.
  pub index_at_apart : (d i j : ℕ) → i < j → j < k.window_size → index_at k d i ≢ index_at k d j
  index_at_apart d i j h w e =
      mod_apart (d + max_cycle k - j) (j - i) k.window_size (omega arith) (omega arith) (
        let over : d + max_cycle k - j + (j - i) ≡ d + max_cycle k - i = omega (arith, ranges v) in
        rw over (
          sym (source_index_wrap k (d + max_cycle k - i))
          ∙ e
          ∙ source_index_wrap k (d + max_cycle k - j)))

  pub index_at-lt : (d i : ℕ) → index_at k d i < k.window_size
  index_at-lt d i = mod_bound _ _ v.window_pos

-- The slots of the rounds from `i` on are those of `original`.
abbrev pub Intact : Constants → List ℕ → ℕ → ℕ → List ℕ → Type 0
Intact k original d i datagram =
    (length datagram ≡ datagram_size k)
    × ((j : ℕ)
        → i ≤ j
        → j < k.window_size
        → slice datagram (slot_start k.size (index_at k d j)) k.size
          ≡ slice original (slot_start k.size (index_at k d j)) k.size)

module _ (rc5 : Rc5) {k : Constants} (v : IsValid k) {K : Type 0} (sink : Sink K) where
  -- A payload goes to the sink, an empty slot does not.
  abbrev pub give : K → Option (List ℕ) → K
  give s none = s
  give s (some p) = sink.handle s p

  -- The datagram behind one round: the payload stands decrypted in its slot.
  abbrev pub opened_slot : Receiver K → ℕ → List ℕ → List ℕ
  opened_slot r i datagram =
      if bytes_eq (slice datagram (slot_start k.size i) k.size) (replicate k.size 0)
      then datagram
      else write datagram (slot_start k.size i)
          (decrypt_slot rc5 r.cipher (slice datagram (slot_start k.size i) k.size))

  -- A cycle that is flagged already is passed over.
  pub sink_slot-old :
      (cycle : ℕ) (r : Receiver K) (datagram : List ℕ)
      → get_or r.flags (cycle % max_buffered k) false ≡ true
      → sink_slot rc5 k sink cycle (r, datagram) ≡ (r, datagram)
  unfolding sink_slot
  sink_slot-old cycle r datagram h = rw h

  -- Any other gives its payload to the sink, if it has one, and is flagged.
  pub sink_slot-new :
      (cycle : ℕ) (r : Receiver K) (datagram : List ℕ)
      → length datagram ≡ datagram_size k
      → get_or r.flags (cycle % max_buffered k) false ≡ false
      → sink_slot rc5 k sink cycle (r, datagram) ≡ (
        record r {
          sink = give r.sink (payload_at rc5 r.cipher k.size datagram (cycle % k.window_size));
          flags = set r.flags (cycle % max_buffered k) true;
        },
        opened_slot r (cycle % k.window_size) datagram,
      )
  unfolding sink_slot
  sink_slot-new cycle r datagram size h =
      let start = slot_start k.size (cycle % k.window_size) in
      let fits =
        slot_inside k (cycle % k.window_size) (length datagram) (mod_bound _ _ v.window_pos) size in
      let block = slice datagram start k.size in
      let read =
        slice-write_self datagram start k.size (decrypt_slot rc5 r.cipher block)
          (length-decrypt_slot rc5 r.cipher block ∙ length-slice datagram start k.size fits) fits in
      elim (Bool-cases (bytes_eq block (replicate k.size 0))) [
        | inl e ↦ rw (h, e)
        | inr e ↦ rw (h, e, read)
      ]

  -- One round leaves the slots of the later rounds as they were.
  pub opened_slot-Intact :
      (original : List ℕ) (d i : ℕ) (r : Receiver K) (datagram : List ℕ)
      → i < k.window_size
      → Intact k original d i datagram
      → Intact k original d (i + 1) (opened_slot r (index_at k d i) datagram)
  opened_slot-Intact original d i r datagram w (size, same) =
      let start = slot_start k.size (index_at k d i) in
      let block = slice datagram start k.size in
      let fits = slot_inside k (index_at k d i) (length datagram) (index_at-lt v d i) size in
      elim (Bool-cases (bytes_eq block (replicate k.size 0))) [
        | inl e ↦ rw e (size, λ j a b. same j (omega arith) b)
        | inr e ↦ rw e (
          length-write datagram start _ ∙ size,
          λ j a b.
              slot_apart k.size (index_at k d i) (index_at k d j) datagram _
                (length-decrypt_slot rc5 r.cipher block ∙ length-slice datagram start k.size fits)
                (index_at_apart v d i j (omega arith) b)
              ∙ same j (omega arith) b,
        )
      ]

-- So a round reads there what the datagram arrived with.
pub payload_at-Intact :
    (rc5 : Rc5) (c : Cipher) (k : Constants) (original : List ℕ) (d i : ℕ) (datagram : List ℕ)
    → i < k.window_size
    → Intact k original d i datagram
    → payload_at rc5 c k.size datagram (index_at k d i)
      ≡ payload_at rc5 c k.size original (index_at k d i)
payload_at-Intact rc5 c k original d i datagram w (size, same) =
    ap (λ b. if bytes_eq b (replicate k.size 0) then none else some (decrypt_slot rc5 c b))
      (same i (omega arith) w)

pub Intact-next :
    (k : Constants) (original : List ℕ) (d i : ℕ) (datagram : List ℕ)
    → Intact k original d i datagram
    → Intact k original d (i + 1) datagram
Intact-next k original d i datagram (size, same) = (size, λ j a b. same j (omega arith) b)
