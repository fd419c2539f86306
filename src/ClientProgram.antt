-- ===== src/ClientProgram.antt =====
-- crates/longboy-client-cli/src/main.rs: the source and the sink of the client's program.
pub mod Words
pub mod SetUp
use longboy.Prelude.{ℕ, Bool, true, false, Option, none, some, List, [], ◌∷◌, ◌++◌, if◌then◌else◌}
use longboy.Prelude.Slices.{slice, write}
use longboy.Prelude.Bytes.{to_le_bytes, from_le_bytes}
use longboy.Broker.{Message}

-- `(u64, u64, u64)`
pub record Inputs : Type 0 where
  pub input0 : ℕ
  pub input1 : ℕ
  pub input2 : ℕ

-- `ClientToServerSource::poll`, a `Source<32>`, on a channel that holds `queue`; `connected` says whether it still has
-- a sender. `recv` waits for a message as long as there is one: `none` is a poll that does not return
-- before something is sent.
unfoldable pub poll : Bool → List ℕ → List Inputs → Option (Bool × List ℕ × List Inputs)
poll connected buffer [] = if connected then none else some (false, buffer, [])
poll connected buffer (msg ∷ queue) =
    let first = write buffer 0 (to_le_bytes 8 msg.input0) in
    let second = write first 8 (to_le_bytes 8 msg.input1) in
    some (true, write second 16 (to_le_bytes 8 msg.input2), queue)

-- `ServerToClientSink::handle`, a `Sink<32>`: the buffer has 32 bytes.
unfoldable pub handle : List ℕ → List Message → List Message
handle buffer channel =
    channel
    ++ record {
      a = from_le_bytes (slice buffer 0 8);
      b = from_le_bytes (slice buffer 8 8);
      c = from_le_bytes (slice buffer 16 8);
      player_index = from_le_bytes (slice buffer 24 1);
    }
      ∷ []
