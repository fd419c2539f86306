-- ===== src/Schemas/SetUp.antt =====
-- How the server's program (crates/longboy-server-cli/src/main.rs) sets up its server. `none` is the
-- panic of an `unwrap`.
use Prim.Native.String.{String}
use longboy.Prelude.{
  ℕ, ◌≡◌, ◌≢◌, refl, arith, Bool, true, Option, none, some, ◌⊎◌, inl, inr, [], ◌∷◌, ==_of,
}
use longboy.Builders.{contains, bind_all}
use longboy.Server.{Arena}
use longboy.Server.ToClients
use longboy.Server.ToClients.{SenderSession}
use longboy.Server.FromClients
use longboy.Server.FromClients.{ReceiverSession}
use longboy.Server.Registry.{Server}
use longboy.Server.Builder.{ServerTask, builder, sender_with_sockets, receiver_with_socket, build}
use longboy.Server.Builder.Sockets.{sender, receiver}
use longboy.Schemas.{new_client_to_server_schema, new_server_to_client_schema}

-- `.unwrap()`
abbrev pub unwrap {ℓ κ} : {A : Type ℓ} {B : Type κ} → A ⊎ B → Option B
unwrap (inl e) = none
unwrap (inr b) = some b

module _ {S K : Type 0} (senders : Arena (SenderSession S)) (receivers : Arena (ReceiverSession K))
    {F G : Type 0} (local_port : ℕ → ℕ) (nonblocking : ℕ → Bool) (format : String → String → String)
    {W : Type 0} (bind : W → ℕ → Option (ℕ × W)) where
  unfoldable pub set_up :
      {R : Type 0}
      → (with_capacity : ℕ → ℕ) → (R → ServerTask senders receivers F G → R)
      → R
      → W
      → ℕ
      → F
      → G
      → Option (Server × R)
  unfolding builder sender receiver build new_client_to_server_schema new_server_to_client_schema
  set_up with_capacity spawn runtime system session_capacity server_broker client_broker =
      elim (unwrap (
        sender senders receivers local_port nonblocking format bind system
          (builder senders receivers session_capacity) new_server_to_client_schema server_broker)) [
            | none ↦ none
            | some first ↦
                elim (unwrap (
                  receiver senders receivers local_port nonblocking format bind first.1 first.0
                    new_client_to_server_schema client_broker)) [
                      | none ↦ none
                      | some second ↦
                          some (build senders receivers with_capacity spawn runtime second.0)
                    ]
          ]

module _ {S K : Type 0} (senders : Arena (SenderSession S)) (receivers : Arena (ReceiverSession K))
    {F G : Type 0} (local_port : ℕ → ℕ) (nonblocking : ℕ → Bool) (format : String → String → String)
    {W : Type 0} (bound : W → ℕ → ℕ × W) where
  -- On a system where binding a socket never fails, a socket that is bound to a port has that
  -- port, and every socket can be made non-blocking, the set-up of the server's program with the
  -- default schemas does not panic: it has a server with no session, with the capacity that it
  -- was asked for, and with two channels on which nothing has been sent.
  pub set_up_lem :
      {R : Type 0} (with_capacity : ℕ → ℕ) (spawn : R → ServerTask senders receivers F G → R)
      (runtime : R) (system : W) (session_capacity : ℕ) (server_broker : F) (client_broker : G)
      → ((w : W) (port : ℕ) → port ≢ 0 → port ≡ local_port (bound w port).0)
      → ((socket : ℕ) → nonblocking socket ≡ true)
      → (last : R) × (set_up senders receivers local_port nonblocking format
            (λ w port. some (bound w port))
            with_capacity
            spawn
            runtime
            system
            session_capacity
            server_broker
            client_broker
          ≡ some (
            record {
              sessions = [];
              capacity = with_capacity session_capacity;
              session_senders = [] ∷ [] ∷ [];
            },
            last,
          ))
  unfolding set_up bind_all sender_with_sockets receiver_with_socket ToClients.new FromClients.new
      contains
  set_up_lem with_capacity spawn runtime system session_capacity server_broker client_broker binds
        opened =
      let (mapper, w1) = bound system 8080 in
      let (a, w2) = bound w1 0 in
      let (b, w3) = bound w2 0 in
      let (c, w4) = bound w3 0 in
      let (second, w5) = bound w4 8081 in
      let data_socket = (bound w5 8082).0 in
      let e1 = ==_of 8080 (local_port mapper) (binds system 8080 (λ e. absurd (omega arith))) in
      let e2 = ==_of 8081 (local_port second) (binds w4 8081 (λ e. absurd (omega arith))) in
      let e3 = ==_of 8082 (local_port data_socket) (binds w5 8082 (λ e. absurd (omega arith))) in
      rw
        (
          set_up,
          e1,
          opened mapper,
          opened a,
          opened b,
          opened c,
          e2,
          e3,
          opened data_socket,
          opened second,
        )
        (_, refl)
