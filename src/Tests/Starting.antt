-- ===== src/Tests/Starting.antt =====
-- The client's program starts, on a system that hands out sockets 0, 1 and so on.
use longboy.Prelude.{ℕ, ◌≡◌, refl, arith, true, some, List, [], ◌∷◌, ◌++◌}
use longboy.Client.Builder.{ClientTask}
use longboy.Handshake.{new_server_session}
use longboy.ClientProgram.SetUp.{start_client, receiving_task, sending_task, start_client_lem}
use longboy.Tests.Building.{bound, named}
use longboy.Tests.Programs.{unfinished, accepting}

abbrev spawned : List (ClientTask ℕ (List ℕ)) → ClientTask ℕ (List ℕ) → List (ClientTask ℕ (List ℕ))
spawned tasks task = tasks ++ task ∷ []

start_client_lem_example :
    start_client
      (λ socket. true)
      named
      (λ w port. some (bound w port))
      spawned
      accepting
      5
      (new_server_session unfinished 9 7).1
      []
      0
      1
      []
    ≡ some (receiving_task named bound 5 9 7 0 [] ∷ sending_task named bound 5 9 7 1 1 ∷ [])
start_client_lem_example =
    start_client_lem (λ socket. true) named bound spawned unfinished accepting 5 9 7 [] 0 1 []
      (λ socket. refl) (omega arith) (omega arith)
