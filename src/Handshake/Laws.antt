-- ===== src/Handshake/Laws.antt =====
-- What a client makes of what the server has put on the stream.
use longboy.Prelude.{
  ℕ, ◌^◌, ◌<◌, ◌≡◌, refl, sym, ◌∙◌, ap, arith, Bool, true, false, ◌&&◌, none, some, List, [], ◌∷◌,
  ◌++◌, length, leb, if◌then◌else◌, Bool-cases, inl, inr, append-nil,
}
use longboy.Prelude.Bytes.{
  to_le_bytes, from_le_bytes, length-to_le_bytes, from_le_bytes-to_le_bytes,
}
use longboy.Handshake.{SendStream, RecvStream, new_server_session, read_u64_le, new_client_session}

read-word :
    (bs rest : List ℕ)
    → length bs ≡ 8
    → read_u64_le true (bs ++ rest) ≡ some (from_le_bytes bs, rest)
unfolding read_u64_le
read-word (a ∷ b ∷ c ∷ d ∷ e ∷ f ∷ g ∷ h ∷ []) rest size =
    let long : leb 8 (length (a ∷ b ∷ c ∷ d ∷ e ∷ f ∷ g ∷ h ∷ rest)) ≡ true = ground arith in
    rw long
read-word bs rest size = absurd (omega arith)

read-to_le_bytes :
    (n : ℕ) (rest : List ℕ)
    → n < 2 ^ 64
    → read_u64_le true (to_le_bytes 8 n ++ rest) ≡ some (n, rest)
read-to_le_bytes n rest small =
    read-word (to_le_bytes 8 n) rest (length-to_le_bytes 8 n)
    ∙ ap (λ m. some (m, rest)) (from_le_bytes-to_le_bytes 8 n (omega arith))

and_false : (b : Bool) → (b && false) ≡ false
and_false true = refl
and_false false = refl

read_nothing : (receive : RecvStream) (ip_addr : ℕ) → new_client_session receive ip_addr [] ≡ none
unfolding new_client_session read_u64_le
read_nothing receive ip_addr = elim (Bool-cases receive.accept_uni) [
  | inl opened ↦ rw (new_client_session, read_u64_le, opened, and_false receive.first_read)
  | inr shut ↦ rw (new_client_session, shut)
]

-- The client's own operations succeed.
abbrev pub received : RecvStream → Bool
received receive =
    receive.accept_uni && (receive.first_read && (receive.second_read && receive.stop))

-- What the server writes before it ends the stream.
abbrev pub written : SendStream → Bool
written send = send.open_uni && (send.first_write && send.second_write)

module _ (session_id cipher_key : ℕ) where
  read_first :
      (receive : RecvStream) (ip_addr : ℕ)
      → session_id < 2 ^ 64
      → new_client_session receive ip_addr (to_le_bytes 8 session_id) ≡ none
  unfolding new_client_session read_u64_le
  read_first receive ip_addr small =
      let one : read_u64_le true (to_le_bytes 8 session_id) ≡ some (session_id, []) =
        ap (read_u64_le true) (sym (append-nil (to_le_bytes 8 session_id)))
        ∙ read-to_le_bytes session_id [] small in
      elim (Bool-cases receive.accept_uni) [
        | inl opened ↦ elim (Bool-cases receive.first_read) [
          | inl lasts ↦
              rw
                (new_client_session, opened, lasts, one, read_u64_le, and_false receive.second_read)
          | inr lost ↦ rw (new_client_session, opened, lost) refl
        ]
        | inr shut ↦ rw (new_client_session, shut)
      ]

  read_both :
      (receive : RecvStream) (ip_addr : ℕ)
      → session_id < 2 ^ 64
      → cipher_key < 2 ^ 64
      → new_client_session receive ip_addr (to_le_bytes 8 session_id ++ to_le_bytes 8 cipher_key)
        ≡ (if received receive
            then some
                (record { ip_addr = ip_addr; session_id = session_id; cipher_key = cipher_key })
            else none)
  unfolding new_client_session read_u64_le
  read_both receive ip_addr small small' =
      let one = read-to_le_bytes session_id (to_le_bytes 8 cipher_key) small in
      let two : read_u64_le true (to_le_bytes 8 cipher_key) ≡ some (cipher_key, []) =
        ap (read_u64_le true) (sym (append-nil (to_le_bytes 8 cipher_key)))
        ∙ read-to_le_bytes cipher_key [] small' in
      elim (Bool-cases receive.accept_uni) [
        | inl opened ↦ elim (Bool-cases receive.first_read) [
          | inl lasts ↦ elim (Bool-cases receive.second_read) [
            | inl lasts' ↦ rw (new_client_session, opened, lasts, one, lasts', two) refl
            | inr lost ↦ rw (new_client_session, opened, lasts, one, lost) refl
          ]
          | inr lost ↦ rw (new_client_session, opened, lost) refl
        ]
        | inr shut ↦ rw (new_client_session, shut)
      ]

  -- The two ends of a handshake, for a session and a key below 2 ^ 64, whichever operations on
  -- the stream fail at either end, the reads included: the server has its session exactly if all
  -- its operations succeed, the client exactly if the server wrote both numbers and the client's
  -- own operations succeed, and what each has is the session and the key. So the client may have
  -- a session that the server has not.
  pub handshake :
      (send : SendStream) (receive : RecvStream) (ip_addr : ℕ)
      → session_id < 2 ^ 64
      → cipher_key < 2 ^ 64
      → let (session, bytes) = new_server_session send session_id cipher_key in
        (session ≡ (
          if written send && (send.finish && send.stopped)
          then some (record { session_id = session_id; cipher_key = cipher_key })
          else none))
        × (new_client_session receive ip_addr bytes ≡ (
            if written send && received receive
            then some
                (record { ip_addr = ip_addr; session_id = session_id; cipher_key = cipher_key })
            else none))
  unfolding new_server_session
  handshake send receive ip_addr small small' = elim (Bool-cases send.open_uni) [
    | inr shut ↦ rw (new_server_session, shut) (refl, read_nothing receive ip_addr)
    | inl opened ↦ elim (Bool-cases send.first_write) [
      | inr fails ↦ rw (new_server_session, opened, fails) (refl, read_nothing receive ip_addr)
      | inl first ↦ elim (Bool-cases send.second_write) [
        | inr fails ↦
            rw (new_server_session, opened, first, fails) (refl, read_first receive ip_addr small)
        | inl second ↦
            rw (new_server_session, opened, first, second)
              (refl, read_both receive ip_addr small small')
      ]
    ]
  ]

-- The server's end alone.
pub new_server_session_lem :
    (send : SendStream) (session_id cipher_key : ℕ)
    → (new_server_session send session_id cipher_key).0 ≡ (
        if written send && (send.finish && send.stopped)
        then some (record { session_id = session_id; cipher_key = cipher_key })
        else none)
unfolding new_server_session
new_server_session_lem send session_id cipher_key = elim (Bool-cases send.open_uni) [
  | inr shut ↦ rw (new_server_session, shut)
  | inl opened ↦ elim (Bool-cases send.first_write) [
    | inr fails ↦ rw (new_server_session, opened, fails)
    | inl first ↦ elim (Bool-cases send.second_write) [
      | inr fails ↦ rw (new_server_session, opened, first, fails)
      | inl second ↦ rw (new_server_session, opened, first, second)
    ]
  ]
]
