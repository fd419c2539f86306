-- ===== src/Proto/Link/Frames.antt =====
-- How a receiver reads the datagrams of a sender with the same key.
use longboy.Prelude.{
  ℕ, zero, suc, ◌+◌, ◌-◌, ◌*◌, ◌%◌, ◌^◌, ◌≤◌, ◌<◌, ◌≡◌, refl, sym, ◌∙◌, ap, arith, true, false,
  Option, none, some, List, [], ◌∷◌, ◌++◌, foldl, length, get_or, set, replicate, length-append,
  ==_self, ltb_of_le, if◌then◌else◌,
}
use longboy.Prelude.Slices.{slice, write_front, slice_front}
use longboy.Prelude.Bytes.{to_le_bytes, from_le_bytes, length-to_le_bytes}
use longboy.Prelude.Modular.{mod_bound, ahead}
use longboy.Proto.Constants.{Constants, IsValid, datagram_size, max_cycle}
use longboy.Proto.Constants.Bounds.{ranges}
use longboy.Proto.Cipher.{Rc5, Cipher, encrypt_slot, decrypt_slot}
use longboy.Proto.Cipher.RoundTrip.{decrypt_header-encrypt_header, decrypt_slot-encrypt_slot}
use longboy.Proto.Sender.Frame.{
  Sized, header, length-header, slot_bytes, body, slice-frame, length-frame,
}
use longboy.Proto.Receiver.{Sink, Receiver, bytes_eq, open_header, handle_datagram}
use longboy.Proto.Receiver.Slots.{index_at, payload_at, give, index_at-lt}
use longboy.Proto.Receiver.Recover.{IsClear, rounds, accept_recovers}

-- The ciphertext of a payload is not all zeros, so the slot is not taken for an empty one.
abbrev pub Shows : Rc5 → Cipher → ℕ → Option (List ℕ) → Type 0
Shows rc5 c size none = Unit {0}
Shows rc5 c size (some p) = bytes_eq (encrypt_slot rc5 c p) (replicate size 0) ≡ false

abbrev pub AllShow : Rc5 → Cipher → ℕ → List (Option (List ℕ)) → Type 0
AllShow rc5 c size [] = Unit {0}
AllShow rc5 c size (p ∷ ps) = Shows rc5 c size p × AllShow rc5 c size ps

get_or-Shows :
    (rc5 : Rc5) (c : Cipher) (size : ℕ) (ps : List (Option (List ℕ))) (i : ℕ)
    → AllShow rc5 c size ps
    → Shows rc5 c size (get_or ps i none)
get_or-Shows rc5 c size [] i h = tt
get_or-Shows rc5 c size (p ∷ ps) zero h = h.0
get_or-Shows rc5 c size (p ∷ ps) (suc i) h = get_or-Shows rc5 c size ps i h.1

pub set-AllShow :
    (rc5 : Rc5) (c : Cipher) (size : ℕ) (ps : List (Option (List ℕ))) (i : ℕ) (p : Option (List ℕ))
    → AllShow rc5 c size ps
    → Shows rc5 c size p
    → AllShow rc5 c size (set ps i p)
set-AllShow rc5 c size [] i p h hp = tt
set-AllShow rc5 c size (o ∷ ps) zero p h hp = (hp, h.1)
set-AllShow rc5 c size (o ∷ ps) (suc i) p h hp = (h.0, set-AllShow rc5 c size ps i p h.1 hp)

pub bytes_eq_refl : (bs : List ℕ) → bytes_eq bs bs ≡ true
unfolding bytes_eq
bytes_eq_refl [] = refl
bytes_eq_refl (b ∷ bs) = rw (==_self b) (bytes_eq_refl bs)

module _ (rc5 : Rc5) (c : Cipher) where
  pub words : ℕ → ℕ → List ℕ
  words cycle timestamp = to_le_bytes 2 cycle ++ to_le_bytes 2 timestamp

  pub length-words : (cycle timestamp : ℕ) → length (words cycle timestamp) ≡ 4
  unfolding words
  length-words cycle timestamp = omega (
    arith,
    length-append (to_le_bytes 2 cycle) (to_le_bytes 2 timestamp),
    length-to_le_bytes 2 cycle,
    length-to_le_bytes 2 timestamp,
  )

  pub cycle_word :
      (cycle timestamp : ℕ) (rest : List ℕ)
      → cycle < 2 ^ 16
      → from_le_bytes (slice (words cycle timestamp ++ rest) 0 2) ≡ cycle
  unfolding words to_le_bytes from_le_bytes
  cycle_word cycle timestamp rest h = omega arith

  pub timestamp_word :
      (cycle timestamp : ℕ) (rest : List ℕ)
      → timestamp < 2 ^ 16
      → from_le_bytes (slice (words cycle timestamp ++ rest) 2 2) ≡ timestamp
  unfolding words to_le_bytes from_le_bytes
  timestamp_word cycle timestamp rest h = omega arith

  -- A slot that shows is read as the payload that was put into it.
  pub payload_at-frame :
      (size cycle timestamp : ℕ) (ps : List (Option (List ℕ))) (i : ℕ)
      → Sized size ps
      → AllShow rc5 c size ps
      → i < length ps
      → payload_at rc5 c size (words cycle timestamp ++ body rc5 c size ps) i ≡ get_or ps i none
  payload_at-frame size cycle timestamp ps i sized shows h =
      rw
        (slice-frame rc5 c size (words cycle timestamp) ps i (length-words cycle timestamp) sized h)
        (read (get_or ps i none) (get_or-Shows rc5 c size ps i shows))
    where
      read :
          (p : Option (List ℕ))
          → Shows rc5 c size p
          → (if bytes_eq (slot_bytes rc5 c size p) (replicate size 0)
              then none
              else some (decrypt_slot rc5 c (slot_bytes rc5 c size p)))
            ≡ p
      read none s = rw (bytes_eq_refl (replicate size 0))
      read (some p) s = rw (s, decrypt_slot-encrypt_slot rc5 c p)

-- The payloads of `m` rounds from `i` on, as the ring of the sender holds them.
abbrev pub newest : Constants → List (Option (List ℕ)) → ℕ → ℕ → ℕ → List (Option (List ℕ))
newest k ps d zero i = []
newest k ps d (suc m) i = get_or ps (index_at k d i) none ∷ newest k ps d m (i + 1)

module _ (rc5 : Rc5) {k : Constants} (v : IsValid k) {K : Type 0} (sink : Sink K) where
  pub frame_size :
      (ps : List (Option (List ℕ)))
      → length ps ≡ k.window_size
      → 4 + k.size * length ps ≡ datagram_size k
  unfolding datagram_size
  frame_size ps e = rw e

  pub open_header-frame :
      (r : Receiver K) (cycle timestamp : ℕ) (rest : List ℕ)
      → open_header rc5 k sink r (header rc5 r.cipher cycle timestamp ++ rest)
        ≡ words rc5 r.cipher cycle timestamp ++ rest
  unfolding open_header header words
  open_header-frame r cycle timestamp rest =
      let w = words rc5 r.cipher cycle timestamp in
      let h = header rc5 r.cipher cycle timestamp in
      let lead = length-header rc5 r.cipher cycle timestamp in
      rw
        (
          slice_front h rest 4 lead,
          decrypt_header-encrypt_header rc5 r.cipher w (length-words rc5 r.cipher cycle timestamp),
        )
        (write_front h rest w (length-words rc5 r.cipher cycle timestamp ∙ sym lead))

  rounds-frame :
      (r : Receiver K) (cycle timestamp : ℕ) (ps : List (Option (List ℕ))) (d m i : ℕ)
      → Sized k.size ps
      → AllShow rc5 r.cipher k.size ps
      → length ps ≡ k.window_size
      → rounds rc5 v sink r.cipher
          (words rc5 r.cipher cycle timestamp ++ body rc5 r.cipher k.size ps)
          d
          m
          i
        ≡ newest k ps d m i
  rounds-frame r cycle timestamp ps d zero i sized shows e = refl
  rounds-frame r cycle timestamp ps d (suc m) i sized shows e = rw (
    payload_at-frame rc5 r.cipher k.size cycle timestamp ps (index_at k d i) sized shows
        (omega (arith, e, index_at-lt v d i)),
    rounds-frame r cycle timestamp ps d m (i + 1) sized shows e,
  )

  -- A datagram that is fresh, n - 1 cycles ahead of a receiver with nothing buffered, n at most a
  -- window and at most 257, and holds a ring of payloads whose ciphertexts are not all zeros: the
  -- receiver hands over the n newest payloads and has caught up.
  pub handle_datagram_recovers :
      (r : Receiver K) (n now timestamp : ℕ) (ps : List (Option (List ℕ)))
      → IsClear k r
      → 0 < n
      → n ≤ k.window_size
      → n ≤ 257
      → now < 2 ^ 16
      → timestamp < 2 ^ 16
      → (now + 2 ^ 16 - timestamp) % 2 ^ 16 ≤ 2048
      → Sized k.size ps
      → length ps ≡ k.window_size
      → AllShow rc5 r.cipher k.size ps
      → let d = (r.cycle + (n - 1)) % max_cycle k in
        let frame = header rc5 r.cipher d timestamp ++ body rc5 r.cipher k.size ps in
        let r' = (handle_datagram rc5 k sink r now frame).0 in
        (r'.cycle ≡ (r.cycle + n) % max_cycle k)
        × (r'.cipher ≡ r.cipher)
        × IsClear k r'
        × (r'.sink ≡ foldl (give rc5 v sink) r.sink (newest k ps d n 0))
  unfolding handle_datagram
  handle_datagram_recovers r n now timestamp ps h pos hw small hn ht late sized e shows =
      let d = (r.cycle + (n - 1)) % max_cycle k in
      let d_word : d < 2 ^ 16 =
        omega (arith, ranges v, mod_bound (r.cycle + (n - 1)) (max_cycle k)) in
      let rest = body rc5 r.cipher k.size ps in
      let length_ok : length (words rc5 r.cipher d timestamp ++ rest) ≡ datagram_size k =
        length-frame rc5 r.cipher k.size (words rc5 r.cipher d timestamp) ps
          (length-words rc5 r.cipher d timestamp) sized
        ∙ frame_size ps e in
      let (a, b, c, g) =
        accept_recovers rc5 v sink n r (words rc5 r.cipher d timestamp ++ rest) h pos hw
          length_ok in
      rw
        (
          open_header-frame r d timestamp rest,
          cycle_word rc5 r.cipher d timestamp rest d_word,
          timestamp_word rc5 r.cipher d timestamp rest ht,
          ahead (max_cycle k) r.cycle h.in_ring (n - 1) (omega (arith, ranges v)),
          ltb_of_le 256 (n - 1) (omega arith),
          ltb_of_le 2048 _ late,
        )
        (
          a,
          b,
          c,
          g
              ∙ ap (foldl (give rc5 v sink) r.sink)
                  (rounds-frame r d timestamp ps d n 0 sized shows e),
        )
