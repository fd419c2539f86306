-- ===== src/Schemas.antt =====
-- crates/longboy-schema/src/lib.rs, and the sizes with which the two programs
-- (crates/longboy-server-cli/src/main.rs and crates/longboy-client-cli/src/main.rs) set up the tasks
-- of these schemas.
pub mod Sizes
pub mod SetUp
use longboy.Prelude.{ℕ}
use longboy.Proto.Constants.{Constants}
use longboy.Effects.{ClientToServerSchema, ServerToClientSchema}

unfoldable pub new_client_to_server_schema : ClientToServerSchema
new_client_to_server_schema = record {
  name = "Input";
  mapper_port = 8081;
  heartbeat_period = 100;
  port = 8082;
}

unfoldable pub new_server_to_client_schema : ServerToClientSchema
new_server_to_client_schema = record { name = "State"; mapper_port = 8080; heartbeat_period = 100 }

-- `::<_, 28, 1>` and `::<_, 32, 3>`.
abbrev pub server_constants : Constants
server_constants = record { size = 28; window_size = 1 }

abbrev pub client_constants : Constants
client_constants = record { size = 32; window_size = 3 }
