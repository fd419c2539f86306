-- ===== src/Tests/Programs.antt =====
-- Handshakes and the two programs.
use longboy.Prelude.{
  ℕ, zero, suc, ◌<◌, ==_ne, ◌+◌, ◌==◌, if◌then◌else◌, ◌≡◌, refl, arith, true, false, Option, none,
  some, List, [], ◌∷◌, ◌++◌, replicate, length,
}
use longboy.Prelude.Slices.{slice}
use longboy.Prelude.Bytes.{AreBytes, from_le_bytes}
use longboy.Proto.Constants.{datagram_size}
use longboy.Client.FromServer.{process_datagrams}
use longboy.Server.{ServerSessionEvent}
use longboy.Server.Events.{Once}
use longboy.Server.Registry.{contains_key}
use longboy.Server.FromClients.{poll_for_client_datagrams}
use longboy.Handshake.{SendStream, RecvStream, new_server_session, new_client_session}
use longboy.Handshake.Laws.{handshake}
use longboy.Broker
use longboy.Broker.Connections.{Service, serve}
use longboy.Broker.Connections.Seats.{Serving}
use longboy.Broker.{invoke, invoke_server}
use longboy.Broker.Connections.Players.{invoke-Serving}
use longboy.Broker.Connections.Runs.{serve_from_new}
use longboy.Broker.Laws.{poll-handle}
use longboy.ClientProgram
use longboy.ClientProgram.{Inputs}
use longboy.ClientProgram.Words.{poll_words}
use longboy.Schemas.{server_constants, client_constants}
use longboy.Schemas.Sizes.{programs_mismatch}
use longboy.Tests.Servers.{sessions_arena, new_task}
use longboy.Tests.{collect, swap, fresh}
use longboy.Tests.Building.{server_with}

abbrev whole : SendStream
whole = record {
  open_uni = true;
  first_write = true;
  second_write = true;
  finish = true;
  stopped = true;
}

-- The server's end fails when both numbers are written.
abbrev pub unfinished : SendStream
unfinished = record whole { finish = false }

abbrev pub accepting : RecvStream
accepting = record { accept_uni = true; first_read = true; second_read = true; stop = true }

handshake_example :
    ((new_server_session unfinished 9 7).0 ≡ none)
    × (new_client_session accepting 5 (new_server_session unfinished 9 7).1
        ≡ some (record { ip_addr = 5; session_id = 9; cipher_key = 7 }))
handshake_example = handshake 9 7 unfinished accepting 5 (omega arith) (omega arith)

abbrev inputs : Inputs
inputs = record { input0 = 300; input1 = 4; input2 = 5 }

poll_words_example :
    (payload : List ℕ) × (ClientProgram.poll true (replicate 32 9) (inputs ∷ [])
      ≡ some (true, payload, []))
    × (length payload ≡ 32)
    × (from_le_bytes (slice payload 0 8) ≡ 300)
    × (from_le_bytes (slice payload 8 8) ≡ 4)
    × (from_le_bytes (slice payload 16 8) ≡ 5)
    × (slice payload 24 8 ≡ replicate 8 9)
poll_words_example =
    poll_words true inputs [] (replicate 32 9) (omega arith) (omega arith) (omega arith) refl

-- The sink reads the player behind three numbers.
handle_test :
    ClientProgram.handle (replicate 8 0 ++ 1 ∷ replicate 15 0 ++ 3 ∷ replicate 7 0) []
    ≡ record { a = 0; b = 1; c = 0; player_index = 3 } ∷ []
unfolding ClientProgram.handle from_le_bytes
handle_test = refl

ones : (n : ℕ) → AreBytes (replicate n 1)
ones zero = tt
ones (suc n) = (omega arith, ones n)

-- Player 3 sends the bytes 1, and a slot of zeros is filled.
poll-handle_example :
    (relayed : List ℕ) × (Broker.poll (replicate 28 0) (Broker.handle 3 (replicate 28 1) [])
      ≡ (true, relayed, []))
    × (length relayed ≡ 28)
    × (slice relayed 0 8 ≡ replicate 8 1)
    × (slice relayed 8 8 ≡ replicate 8 1)
    × (slice relayed 16 8 ≡ replicate 8 1)
    × (slice relayed 24 1 ≡ 3 ∷ [])
    × (slice relayed 25 3 ≡ replicate 3 0)
poll-handle_example =
    poll-handle 3 (replicate 28 1) (replicate 28 0) (omega arith) refl (ones 28) refl

programs_mismatch_example :
    (process_datagrams swap client_constants collect 10
        (replicate 32 1 ∷ [])
        (replicate 512 0)
        fresh
      ≡ fresh)
    × (poll_for_client_datagrams sessions_arena swap server_constants collect new_task.0 10
          ((replicate 100 1, 300) ∷ [])
          (replicate 512 0)
        ≡ some new_task.0)
unfolding datagram_size
programs_mismatch_example =
    programs_mismatch swap collect collect sessions_arena 10 (replicate 32 1 ∷ [])
      ((replicate 100 1, 300) ∷ []) (replicate 512 0) fresh new_task.0 refl (refl, tt) (refl, tt)

-- Keys are counted. Of three connections for two seats, the first one fails.
abbrev next_key : ℕ → Option (ℕ × ℕ)
next_key g = some (g, g + 1)

abbrev three_connections : List SendStream
three_connections = unfinished ∷ whole ∷ whole ∷ []

serve_from_new_example :
    (after : Service ℕ) × (events : List ServerSessionEvent) × (serve next_key three_connections
        (record { broker = Broker.new 2; server = server_with [] []; keygenerator = 5 })
      ≡ some after)
    × Serving 2 2 after
    × Once (λ id. false) events
    × (after.server.session_senders ≡ events ∷ [])
serve_from_new_example =
    serve_from_new 2 next_key 5 (server_with [] []) three_connections (λ g. (g, g + 1, refl))
      (omega arith) refl (omega arith)

-- A broker for two players, of whom the one of session 1 is seated.
abbrev one_seated : Service ℕ
one_seated = record {
  broker = record {
    queue = [];
    next_session_id = 2;
    player_sessions = λ id. if id == 1 then some 0 else none;
    player_index_free_list = false ∷ true ∷ [];
  };
  server = server_with ((1, 7) ∷ []) [];
  keygenerator = 5;
}

only_first : (id : ℕ) → id < 1 → one_seated.broker.player_sessions (id + 1) ≡ some id
only_first zero lt = refl
only_first (suc id) lt = absurd (omega arith)

one_seated-Serving : Serving 2 1 one_seated
unfolding contains_key
one_seated-Serving = record {
  within = omega arith;
  m = 1;
  seats = refl;
  seated = refl;
  numbered = refl;
  players = only_first;
  no_zero = refl;
  fresh = λ id lt. rw (==_ne id 1 (λ e. absurd (omega arith))) refl;
  few = omega arith;
  capacity = omega arith;
}

invoke-Serving_example :
    (player : ℕ) × (1 ≡ player + 1)
    × (player < 2)
    × (invoke one_seated.broker 1 ≡ some player)
    × (invoke_server 2 one_seated.broker 1 ≡ some player)
unfolding contains_key
invoke-Serving_example = invoke-Serving 2 1 one_seated 1 (omega arith) one_seated-Serving refl
