-- ===== src/ClientProgram/SetUp.antt =====
-- How the client's program (crates/longboy-client-cli/src/main.rs) sets up its client. `none` is an
-- error that it returns; the runtime is whatever `spawn` makes of it.
use Prim.Native.String.{String}
use longboy.Prelude.{
  ℕ, ◌+◌, ◌*◌, ◌^◌, ◌<◌, ◌≡◌, refl, Bool, true, Option, none, some, inl, inr, Bool-cases, ◌&&◌,
  if◌then◌else◌, List,
}
use longboy.Proto.Sender
use longboy.Proto.Receiver
use longboy.Builders.{contains, sockets_of, bind_all}
use longboy.Client.ToServer
use longboy.Client.FromServer
use longboy.Client.Builder.{
  ClientTask, sending, receiving, builder, sender_with_sockets, receiver_with_socket, sender,
  receiver, build,
}
use longboy.Handshake.{SendStream, RecvStream, new_server_session, new_client_session}
use longboy.Handshake.Laws.{written, received, handshake}
use longboy.Schemas.{new_client_to_server_schema, new_server_to_client_schema, client_constants}

module _ {S K : Type 0} (nonblocking : ℕ → Bool) (format : String → String → String) {W : Type 0}
    (bind : W → ℕ → Option (ℕ × W)) {R : Type 0} (spawn : R → ClientTask S K → R) where
  -- `bytes` is what the server sends on the stream of the session.
  unfoldable pub start_client : RecvStream → ℕ → List ℕ → R → W → S → K → Option R
  unfolding sender receiver build builder new_client_to_server_schema new_server_to_client_schema
  start_client receive ip_addr bytes runtime system source sink =
      elim (new_client_session receive ip_addr bytes) [
        | none ↦ none
        | some session ↦
            elim (receiver {S = S} client_constants nonblocking format bind system (builder session)
              new_server_to_client_schema sink) [
                | inl e ↦ none
                | inr first ↦
                    elim (sender {K = K} client_constants nonblocking format bind first.1 first.0
                      new_client_to_server_schema source) [
                        | inl e ↦ none
                        | inr second ↦ some (build spawn runtime second.0)
                      ]
              ]
      ]

module _ {S K : Type 0} (format : String → String → String) {W : Type 0}
    (bound : W → ℕ → ℕ × W) where
  -- The two tasks that the client's program runs, on the sockets that it binds one after the other.
  abbrev pub receiving_task : ℕ → ℕ → ℕ → W → K → ClientTask S K
  receiving_task ip_addr session_id cipher_key system sink = receiving (record {
    name = format "ServerToClientReceiver: " "State";
    mapper_socket_addr = ip_addr * 65536 + 8080;
    heartbeat_period = 100;
    socket = (bound system 0).0;
    session_id = session_id;
    next_heartbeat = 0;
    receiver = Receiver.new client_constants cipher_key sink;
  })

  abbrev pub sending_task : ℕ → ℕ → ℕ → W → S → ClientTask S K
  sending_task ip_addr session_id cipher_key system source =
      let (a, w1) = bound system 0 in
      let (b, w2) = bound w1 0 in
      sending (record {
        name = format "ClientToServerSender: " "Input";
        mapper_socket_addr = ip_addr * 65536 + 8081;
        heartbeat_period = 100;
        socket_addr = ip_addr * 65536 + 8082;
        sockets = sockets_of a b (bound w2 0).0;
        session_id = session_id;
        next_heartbeat = 0;
        sender = Sender.new client_constants cipher_key source;
      })

module _ {S K : Type 0} (nonblocking : ℕ → Bool) (format : String → String → String) {W : Type 0}
    (bound : W → ℕ → ℕ × W) where
  -- The client's program from the handshake to its running tasks, on a system where binding a
  -- socket never fails and every socket can be made non-blocking, for a session and a key below 2
  -- ^ 64, whichever operations on the stream fail at either end, the reads included: if the
  -- server wrote both numbers and the client's own operations succeed, the runtime is given two
  -- tasks, the receiving one first, with that session and key, on the sockets that were bound,
  -- with the periods and addresses of the default schemas at the server's address; otherwise it
  -- returns an error, and the runtime is given nothing.
  pub start_client_lem :
      {R : Type 0} (spawn : R → ClientTask S K → R) (send : SendStream) (receive : RecvStream)
      (ip_addr session_id cipher_key : ℕ) (runtime : R) (system : W) (source : S) (sink : K)
      → ((socket : ℕ) → nonblocking socket ≡ true)
      → session_id < 2 ^ 64
      → cipher_key < 2 ^ 64
      → start_client nonblocking format
          (λ w port. some (bound w port))
          spawn
          receive
          ip_addr
          (new_server_session send session_id cipher_key).1
          runtime
          system
          source
          sink
        ≡ (if written send && received receive
            then some (
                spawn
                  (spawn runtime
                    (receiving_task format bound ip_addr session_id cipher_key system sink))
                  (sending_task format bound ip_addr session_id cipher_key
                    (bound system 0).1
                    source))
            else none)
  unfolding start_client bind_all sender_with_sockets receiver_with_socket ToServer.new
      FromServer.new contains
  start_client_lem spawn send receive ip_addr session_id cipher_key runtime system source sink
        opened small small' =
      let read = (handshake session_id cipher_key send receive ip_addr small small').1 in
      let (a, w1) = bound system 0 in
      let (b, w2) = bound w1 0 in
      let (c, w3) = bound w2 0 in
      elim (Bool-cases (written send && received receive)) [
        | inl all ↦
            rw (start_client, read, all, opened a, opened b, opened c, opened (bound w3 0).0) refl
        | inr fails ↦ rw (start_client, read, fails) refl
      ]
