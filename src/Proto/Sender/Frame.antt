-- ===== src/Proto/Sender/Frame.antt =====
-- A datagram is a header of four bytes and `WINDOW_SIZE` slots of `SIZE` bytes.
use longboy.Prelude.{
  ℕ, zero, suc, ◌+◌, ◌*◌, ◌≤◌, ◌<◌, ◌≡◌, refl, ap, ◌∙◌, arith, Option, none, some, List, [], ◌∷◌,
  ◌++◌, map, length, get_or, set, replicate, length-append, length-replicate,
}
use longboy.Prelude.Slices.{slice, write, write-append, slice-append}
use longboy.Prelude.Blocks.{concat, AllSized, length-concat, slice-concat, write-concat}
use longboy.Prelude.Bytes.{to_le_bytes, length-to_le_bytes}
use longboy.Proto.Cipher.{Rc5, Cipher, encrypt_header, encrypt_slot}
use longboy.Proto.Cipher.RoundTrip.{length-encrypt_header, length-encrypt_slot}
use longboy.Proto.Sender.{slot_start}

-- A payload is absent or has `size` bytes.
abbrev pub HasSize : ℕ → Option (List ℕ) → Type 0
HasSize size none = Unit {0}
HasSize size (some p) = length p ≡ size

abbrev pub Sized : ℕ → List (Option (List ℕ)) → Type 0
Sized size [] = Unit {0}
Sized size (p ∷ ps) = HasSize size p × Sized size ps

module _ (size : ℕ) where
  pub get_or-HasSize :
      (ps : List (Option (List ℕ))) (i : ℕ) → Sized size ps → HasSize size (get_or ps i none)
  get_or-HasSize [] i h = tt
  get_or-HasSize (p ∷ ps) zero h = h.0
  get_or-HasSize (p ∷ ps) (suc i) h = get_or-HasSize ps i h.1

  pub set-Sized :
      (ps : List (Option (List ℕ))) (i : ℕ) (p : Option (List ℕ))
      → Sized size ps
      → HasSize size p
      → Sized size (set ps i p)
  set-Sized [] i p h hp = tt
  set-Sized (o ∷ ps) zero p h hp = (hp, h.1)
  set-Sized (o ∷ ps) (suc i) p h hp = (h.0, set-Sized ps i p h.1 hp)

module _ (rc5 : Rc5) (c : Cipher) where
  unfoldable pub header : ℕ → ℕ → List ℕ
  header cycle timestamp = encrypt_header rc5 c (to_le_bytes 2 cycle ++ to_le_bytes 2 timestamp)

  pub length-header : (cycle timestamp : ℕ) → length (header cycle timestamp) ≡ 4
  unfolding header
  length-header cycle timestamp = length-encrypt_header rc5 c _ (
      omega (
        arith,
        length-append (to_le_bytes 2 cycle) (to_le_bytes 2 timestamp),
        length-to_le_bytes 2 cycle,
        length-to_le_bytes 2 timestamp,
      ))

module _ (rc5 : Rc5) (c : Cipher) (size : ℕ) where
  -- A slot without input is all zeros.
  abbrev pub slot_bytes : Option (List ℕ) → List ℕ
  slot_bytes none = replicate size 0
  slot_bytes (some p) = encrypt_slot rc5 c p

  abbrev pub body : List (Option (List ℕ)) → List ℕ
  body ps = concat (map slot_bytes ps)

  pub length-slot_bytes : (p : Option (List ℕ)) → HasSize size p → length (slot_bytes p) ≡ size
  length-slot_bytes none h = length-replicate size 0
  length-slot_bytes (some p) h = length-encrypt_slot rc5 c p ∙ h

  blocks-AllSized :
      (ps : List (Option (List ℕ))) → Sized size ps → AllSized size (map slot_bytes ps)
  blocks-AllSized [] h = tt
  blocks-AllSized (p ∷ ps) h = (length-slot_bytes p h.0, blocks-AllSized ps h.1)

  get_or-blocks :
      (ps : List (Option (List ℕ))) (i : ℕ)
      → i < length ps
      → get_or (map slot_bytes ps) i [] ≡ slot_bytes (get_or ps i none)
  get_or-blocks [] i h = absurd (omega arith)
  get_or-blocks (p ∷ ps) zero h = refl
  get_or-blocks (p ∷ ps) (suc i) h = get_or-blocks ps i (omega arith)

  set-blocks :
      (ps : List (Option (List ℕ))) (i : ℕ) (p : Option (List ℕ))
      → set (map slot_bytes ps) i (slot_bytes p) ≡ map slot_bytes (set ps i p)
  set-blocks [] i p = refl
  set-blocks (o ∷ ps) zero p = refl
  set-blocks (o ∷ ps) (suc i) p = ap (◌∷◌ (slot_bytes o)) (set-blocks ps i p)

  length-blocks : (ps : List (Option (List ℕ))) → length (map slot_bytes ps) ≡ length ps
  length-blocks [] = refl
  length-blocks (p ∷ ps) = ap suc (length-blocks ps)

  -- The slots of a frame are read at their places,
  pub slice-frame :
      (h : List ℕ) (ps : List (Option (List ℕ))) (i : ℕ)
      → length h ≡ 4
      → Sized size ps
      → i < length ps
      → slice (h ++ body ps) (slot_start size i) size ≡ slot_bytes (get_or ps i none)
  slice-frame h ps i e sized lt =
      let start : 4 + size * i ≡ length h + size * i = omega arith in
      rw start (
        slice-append h (body ps) (size * i) size
        ∙ slice-concat size (map slot_bytes ps) i (blocks-AllSized ps sized)
            (omega (arith, length-blocks ps))
        ∙ get_or-blocks ps i lt)

  -- and overwritten there.
  pub write-frame :
      (h : List ℕ) (ps : List (Option (List ℕ))) (i : ℕ) (p : Option (List ℕ))
      → length h ≡ 4
      → Sized size ps
      → HasSize size p
      → write (h ++ body ps) (slot_start size i) (slot_bytes p) ≡ h ++ body (set ps i p)
  write-frame h ps i p e sized hp =
      let start : 4 + size * i ≡ length h + size * i = omega arith in
      rw start (
        write-append h (body ps) (size * i) (slot_bytes p)
        ∙ ap (◌++◌ h) (
            write-concat size (map slot_bytes ps) i (slot_bytes p) (blocks-AllSized ps sized)
              (length-slot_bytes p hp)
            ∙ ap concat (set-blocks ps i p)))

  pub length-frame :
      (h : List ℕ) (ps : List (Option (List ℕ)))
      → length h ≡ 4
      → Sized size ps
      → length (h ++ body ps) ≡ 4 + size * length ps
  length-frame h ps e sized = omega (
    arith,
    length-append h (body ps),
    length-concat size (map slot_bytes ps) (blocks-AllSized ps sized),
    ap (λ (n : ℕ). size * n) (length-blocks ps),
  )

  -- A slot lies inside its frame.
  pub slot-fits :
      (h : List ℕ) (ps : List (Option (List ℕ))) (i : ℕ)
      → length h ≡ 4
      → Sized size ps
      → i < length ps
      → slot_start size i + size ≤ length (h ++ body ps)
  slot-fits h ps i e sized lt =
      let room : size * i + size ≤ size * length ps = grind arith in
      omega (arith, length-frame h ps e sized)
