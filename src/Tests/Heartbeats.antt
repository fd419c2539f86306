-- ===== src/Tests/Heartbeats.antt =====
-- A client's sending task in a runtime for six seconds.
use longboy.Prelude.{ℕ, ◌≡◌, refl, arith, true, false, some, List, [], ◌∷◌, ◌++◌}
use longboy.Effects.{Packet}
use longboy.Client.ToServer.{ClientToServerSender, poll}
use longboy.Client.ToServer.Laws.{beats}
use longboy.Runtimes.Tokio.{spawned, TokioRuntime, Wake, Event, wake, running, turns}
use longboy.Runtimes.Tokio.Isolation.{sent_by}
use longboy.Runtimes.Tokio.Heartbeats.{AllTo, turns_one_heartbeat}
use longboy.Tests.{triple, swap, counter}
use longboy.Tests.Clients.{checked, task}

abbrev ticking : TokioRuntime (ClientToServerSender ℕ)
ticking = record { handles = spawned task ∷ []; cancelled = false }

abbrev tick_at : ℕ → Wake
tick_at now = record { now = now; tick = some now; picks_tick = true }

abbrev six_seconds : List Event
six_seconds =
    wake 0 (tick_at 0)
    ∷ wake 0 (tick_at 1500)
    ∷ wake 0 (tick_at 3000)
    ∷ wake 0 (tick_at 4500)
    ∷ wake 0 (tick_at 6000)
    ∷ []

turns_one_heartbeat_example :
    (data_sent : List Packet) × (sent_by 0
        (turns (poll swap triple (counter 2) checked) six_seconds ticking).1
      ≡ beats task ++ data_sent)
    × AllTo 200 data_sent
unfolding running
turns_one_heartbeat_example =
    turns_one_heartbeat swap triple (counter 2) checked (λ p. refl) ticking six_seconds 0 task
      (tick_at 0) (tick_at 1500 ∷ tick_at 3000 ∷ tick_at 4500 ∷ tick_at 6000 ∷ []) 0
      (1500 ∷ 3000 ∷ 4500 ∷ 6000 ∷ []) refl tt refl refl refl refl (omega arith) (omega arith)
      (omega arith, (omega arith, (omega arith, (omega arith, tt))))
