-- ===== src/Tests/Lives.antt =====
-- A server that registers session 9 and unregisters it, and its two tasks.
use longboy.Prelude.{refl, true, List, [], ◌∷◌}
use longboy.Prelude.Bytes.{to_le_bytes}
use longboy.Effects.{into_usize}
use longboy.Server.{connected, disconnected}
use longboy.Server.ToClients.Life.{Reads}
use longboy.Server.Registry.Lives.{SenderFollows, ReceiverFollows, two_tasks-Follows}
use longboy.Tests.Arenas.{list_iter}
use longboy.Tests.Clients.{checked}
use longboy.Tests.Servers.{logs, sessions_arena, two_polls, server, server_with, in_and_out}
use longboy.Tests.Whole.{senders_arena, counters}
use longboy.Tests.{triple-IsValid, swap, counter, collect}

-- The sending task has not read yet that the session is gone.
abbrev one_behind : List Reads
one_behind =
    record { timestamp = 10; events = []; mappings = [] }
    ∷ record { timestamp = 20; events = connected 9 7 ∷ []; mappings = (to_le_bytes 8 9, 300) ∷ [] }
    ∷ []

two_tasks-Follows_example :
    let u = server_with [] (connected 9 7 ∷ disconnected 9 ∷ []) in
    SenderFollows swap triple-IsValid
      (λ socket. true)
      (λ socket. refl)
      (counter 2)
      checked
      (λ p. refl)
      senders_arena
      list_iter
      counters
      collect
      sessions_arena
      logs
      "state"
      1
      into_usize
      0
      u
      one_behind
      (disconnected 9 ∷ [])
    × ReceiverFollows swap triple-IsValid
        (λ socket. true)
        (λ socket. refl)
        (counter 2)
        checked
        (λ p. refl)
        senders_arena
        list_iter
        counters
        collect
        sessions_arena
        logs
        "voice"
        4
        5
        0
        u
        two_polls
        []
two_tasks-Follows_example =
    two_tasks-Follows swap triple-IsValid (λ socket. true) (λ socket. refl) (counter 2) checked
      (λ p. refl) senders_arena list_iter counters collect sessions_arena logs server
      (server_with [] (connected 9 7 ∷ disconnected 9 ∷ [])) (connected 9 7 ∷ disconnected 9 ∷ [])
      one_behind (disconnected 9 ∷ []) two_polls [] "state" "voice" 1 4 into_usize 5 0 0 refl refl
      in_and_out refl
