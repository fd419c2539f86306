-- ===== src/Handshake.antt =====
-- crates/longboy/src/server/server_session.rs and crates/longboy/src/client/client_session.rs: the
-- session number and the key of a new session, handed over on a stream. Whether the operations of
-- the `quinn` crate on the stream succeed is an argument.
pub mod Laws
use longboy.Prelude.{
  ℕ, ◌≤◌, ◌≡◌, Bool, true, false, ◌&&◌, Option, none, some, List, [], ◌∷◌, ◌++◌, length, take, drop,
  leb, if◌then◌else◌,
}
use longboy.Prelude.Bytes.{to_le_bytes, from_le_bytes}
use longboy.Client.Builder.{ClientSession}

-- Which operations of the server's end succeed.
pub record SendStream : Type 0 where
  pub open_uni : Bool
  pub first_write : Bool
  pub second_write : Bool
  pub finish : Bool
  pub stopped : Bool

-- Those of the client's end. A read also fails on a stream that ends too early; `first_read` and
-- `second_read` say whether the connection and the stream last until the number is there.
pub record RecvStream : Type 0 where
  pub accept_uni : Bool
  pub first_read : Bool
  pub second_read : Bool
  pub stop : Bool

pub record ServerSession : Type 0 where
  pub session_id : ℕ
  pub cipher_key : ℕ

-- `ServerSession::new`: the session, unless an operation fails, and what is on the stream then.
unfoldable pub new_server_session : SendStream → ℕ → ℕ → Option ServerSession × List ℕ
new_server_session send session_id cipher_key =
    let first = to_le_bytes 8 session_id in
    let both = first ++ to_le_bytes 8 cipher_key in
    let ended : Option ServerSession × List ℕ = (
      if send.finish && send.stopped
          then some (record { session_id = session_id; cipher_key = cipher_key })
          else none,
      both,
    ) in
    if send.open_uni
    then (if send.first_write
        then (if send.second_write then ended else (none, first))
        else (none, []))
    else (none, [])

-- `read_u64_le`: the number and the rest of the stream. It fails where the connection is lost or the
-- stream is reset before (`lasts` is false), and where the stream ends before.
unfoldable pub read_u64_le : Bool → List ℕ → Option (ℕ × List ℕ)
read_u64_le lasts bytes =
    if lasts && leb 8 (length bytes)
    then some (from_le_bytes (take 8 bytes), drop 8 bytes)
    else none

-- `ClientSession::new`, with the address of the connection's other end.
unfoldable pub new_client_session : RecvStream → ℕ → List ℕ → Option ClientSession
unfolding read_u64_le
new_client_session receive ip_addr bytes =
    let read : Option ClientSession = elim (read_u64_le receive.first_read bytes) [
      | none ↦ none
      | some first ↦ elim (read_u64_le receive.second_read first.1) [
        | none ↦ none
        | some second ↦
            if receive.stop
            then some (record { ip_addr = ip_addr; session_id = first.0; cipher_key = second.0 })
            else none
      ]
    ] in
    if receive.accept_uni then read else none
