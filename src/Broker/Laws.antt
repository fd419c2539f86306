-- ===== src/Broker/Laws.antt =====
-- How the broker numbers players and sessions, and what it relays.
use longboy.Prelude.{
  ℕ, zero, suc, ◌+◌, ◌≤◌, ◌<◌, ◌≡◌, ◌≢◌, refl, sym, ◌∙◌, ap, arith, true, false, Option, none, some,
  List, [], ◌∷◌, ◌++◌, length, set, replicate, take, drop, ==_self, ==_ne,
}
use longboy.Prelude.Slices.{
  slice, write, length-write, length-slice, slice-write_self, slice-write_before, slice-write_after,
}
use longboy.Prelude.Words.{three_words, length-three_words, three_words_lem, three_words_after}
use longboy.Prelude.Bytes.{to_le_bytes, from_le_bytes, AreBytes, to_le_bytes-from_le_bytes}
use longboy.Broker.{
  SessionBroker, allocate_session_id, later, position, next_player_index, handle, poll,
}

-- The seats below `j` are taken, and `m` are left.
abbrev pub IsSeated : ℕ → ℕ → SessionBroker → Type 0
IsSeated j m broker = broker.player_index_free_list ≡ replicate j false ++ replicate m true

pub position-full : (j : ℕ) → position (replicate j false ++ replicate 0 true) ≡ none
unfolding position
position-full zero = refl
position-full (suc j) = ap later (position-full j)

pub position-free : (j m : ℕ) → position (replicate j false ++ replicate (suc m) true) ≡ some j
unfolding position
position-free zero m = refl
position-free (suc j) m = ap later (position-free j m)

pub set-free :
    (j m : ℕ)
    → set (replicate j false ++ replicate (suc m) true) j false
      ≡ replicate (suc j) false ++ replicate m true
set-free zero m = refl
set-free (suc j) m = ap (◌∷◌ false) (set-free j m)

-- The outcome of seating a player when `j` seats are taken and `m` are left.
abbrev pub Seats : ℕ → ℕ → Option (ℕ × SessionBroker) → Type 0
Seats j zero o = o ≡ none
Seats j (suc m) o = (b : SessionBroker) × (o ≡ some (j, b)) × IsSeated (suc j) m b

-- With the first j seats taken and m left, the next player gets the index j, and it is taken
-- then; when no seat is left there is an error.
pub next_player_index_lem :
    (j m : ℕ) (broker : SessionBroker) → IsSeated j m broker → Seats j m (next_player_index broker)
unfolding next_player_index
next_player_index_lem j zero broker h = rw (next_player_index, h, position-full j) refl
next_player_index_lem j (suc m) broker h =
    rw (next_player_index, h, position-free j m)
      (_, refl, ap (λ flags. set flags j false) h ∙ set-free j m)

AreBytes-take : (n : ℕ) (bs : List ℕ) → AreBytes bs → AreBytes (take n bs)
AreBytes-take zero bs h = tt
AreBytes-take (suc n) [] h = tt
AreBytes-take (suc n) (b ∷ bs) h = (h.0, AreBytes-take n bs h.1)

AreBytes-drop : (n : ℕ) (bs : List ℕ) → AreBytes bs → AreBytes (drop n bs)
AreBytes-drop zero bs h = h
AreBytes-drop (suc n) [] h = tt
AreBytes-drop (suc n) (b ∷ bs) h = AreBytes-drop n bs h.1

word_back :
    (bs : List ℕ) (i : ℕ)
    → i + 8 ≤ length bs
    → AreBytes bs
    → to_le_bytes 8 (from_le_bytes (slice bs i 8)) ≡ slice bs i 8
word_back bs i fits h =
    let e = length-slice bs i 8 fits in
    ap (λ (n : ℕ). to_le_bytes n (from_le_bytes (slice bs i 8))) (sym e)
    ∙ to_le_bytes-from_le_bytes (slice bs i 8) (AreBytes-take 8 (drop i bs) (AreBytes-drop i bs h))

-- A payload of 28 bytes, each below 256, that a sink of a player below 256 takes in when nothing
-- else is queued comes out of the next source that is polled with a slot of 28 bytes, and leaves
-- the queue empty: its first 24 bytes as they came, then the player's index; the last three bytes
-- of the slot are left as they were.
pub poll-handle :
    (player : ℕ) (payload slot : List ℕ)
    → player < 256
    → length payload ≡ 28
    → AreBytes payload
    → length slot ≡ 28
    → (relayed : List ℕ) × (poll slot (handle player payload []) ≡ (true, relayed, []))
      × (length relayed ≡ 28)
      × (slice relayed 0 8 ≡ slice payload 0 8)
      × (slice relayed 8 8 ≡ slice payload 8 8)
      × (slice relayed 16 8 ≡ slice payload 16 8)
      × (slice relayed 24 1 ≡ player ∷ [])
      × (slice relayed 25 3 ≡ slice slot 25 3)
unfolding poll handle
poll-handle player payload slot small long bytes room =
    let byte : to_le_bytes 1 player ≡ player ∷ [] =
      unfold to_le_bytes in ap (λ (n : ℕ). n ∷ []) (omega arith) in
    let a = slice payload 0 8 in
    let b = slice payload 8 8 in
    let c = slice payload 16 8 in
    let wide_a = length-slice payload 0 8 (omega (arith, long)) in
    let wide_b = length-slice payload 8 8 (omega (arith, long)) in
    let wide_c = length-slice payload 16 8 (omega (arith, long)) in
    let fits : 24 ≤ length slot = omega (arith, room) in
    let three = three_words slot a b c in
    let size = length-three_words slot a b c fits wide_a wide_b wide_c ∙ room in
    let (ea, eb, ec) = three_words_lem slot a b c fits wide_a wide_b wide_c in
    (
      write three 24 (player ∷ []),
      rw
          (
            word_back payload 0 (omega arith) bytes,
            word_back payload 8 (omega arith) bytes,
            word_back payload 16 (omega arith) bytes,
            byte,
          )
          refl,
      length-write three 24 (player ∷ []) ∙ size,
      slice-write_before three 24 0 8 (player ∷ []) (omega arith) ∙ ea,
      slice-write_before three 24 8 8 (player ∷ []) (omega arith) ∙ eb,
      slice-write_before three 24 16 8 (player ∷ []) (omega arith) ∙ ec,
      slice-write_self three 24 1 (player ∷ []) refl (omega (arith, size)),
      slice-write_after three 24 25 3 (player ∷ []) (omega arith)
          ∙ three_words_after slot a b c fits wide_a wide_b wide_c 25 3 (omega arith),
    )

-- A new session gets the next number and leads to its player; any other session leads where it
-- did.
pub allocate_session_id_lem :
    (broker : SessionBroker) (player id : ℕ)
    → id ≢ broker.next_session_id
    → let (new_id, broker') = allocate_session_id broker player in
      (broker'.player_sessions new_id ≡ some player)
      × (broker'.player_sessions id ≡ broker.player_sessions id)
unfolding allocate_session_id
allocate_session_id_lem broker player id other =
    (rw (==_self broker.next_session_id) refl, rw (==_ne id _ other) refl)
