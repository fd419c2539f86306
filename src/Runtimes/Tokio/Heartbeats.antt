-- ===== src/Runtimes/Tokio/Heartbeats.antt =====
-- A client's sending task (crates/longboy/src/client/client_to_server_sender.rs) in a TokioRuntime.
use longboy.Prelude.{
  ℕ, ◌+◌, ◌-◌, ◌*◌, ◌%◌, ◌^◌, ◌≤◌, ◌<◌, ◌≡◌, refl, ◌∙◌, ap, arith, true, false, Option, none, some,
  List, [], ◌∷◌, ◌++◌, leb, get_or, append_assoc,
}
use longboy.Proto.Constants.{Constants}
use longboy.Proto.Cipher.{Rc5}
use longboy.Proto.Sender.{Source, Sender, poll_datagram}
use longboy.Effects.{SocketAddr, Packet, Env, done, all_taken}
use longboy.Client.ToServer.{ClientToServerSender, poll}
use longboy.Client.ToServer.Laws.{beats, copies, due, poll_lem}
use longboy.Runtimes.{tokio_timestamps, run}
use longboy.Runtimes.Tokio.{spawned, finished, TokioRuntime, Wake, Event, running, turns}
use longboy.Runtimes.Tokio.Isolation.{Uncancelled, own, ticks, sent_by, turns-run}

-- Each tick comes less than `n` milliseconds after the one before.
abbrev pub IsClose : ℕ → ℕ → List ℕ → Type 0
IsClose n instant [] = Unit {0}
IsClose n instant (tick ∷ ticks) = (tick - instant < n) × IsClose n tick ticks

-- All packets go to this address.
abbrev pub AllTo : SocketAddr → List Packet → Type 0
AllTo addr [] = Unit {0}
AllTo addr (p ∷ packets) = (p.to ≡ addr) × AllTo addr packets

AllTo-append :
    (addr : SocketAddr) (ps qs : List Packet)
    → AllTo addr ps
    → AllTo addr qs
    → AllTo addr (ps ++ qs)
AllTo-append addr [] qs a b = b
AllTo-append addr (p ∷ ps) qs a b = (a.0, AllTo-append addr ps qs a.1 b)

IsClose-le :
    (n m instant : ℕ) (later : List ℕ) → n ≤ m → IsClose n instant later → IsClose m instant later
IsClose-le n m instant [] le close = tt
IsClose-le n m instant (tick ∷ later) le close =
    (omega (arith, close.0), IsClose-le n m tick later le close.1)

module _ (rc5 : Rc5) (k : Constants) {S : Type 0} (source : Source k.size S) (env : Env)
    (takes : (p : Packet) → env.send_to p ≡ true) where
  AllTo-copies :
      (t : ClientToServerSender S) (datagram : Option (List ℕ))
      → AllTo t.socket_addr (copies t datagram)
  AllTo-copies t none = tt
  AllTo-copies t (some datagram) = (refl, (refl, (refl, tt)))

  abbrev next_sender : ClientToServerSender S → ℕ → Sender S
  next_sender t timestamp = (poll_datagram rc5 k source t.sender timestamp).0

  abbrev datagrams : ClientToServerSender S → ℕ → List Packet
  datagrams t timestamp = copies t (poll_datagram rc5 k source t.sender timestamp).1

  -- A poll before the next heartbeat is due, and one that is due.
  poll-early :
      (t : ClientToServerSender S) (timestamp : ℕ)
      → timestamp < t.next_heartbeat
      → t.next_heartbeat + t.heartbeat_period ≤ 2 ^ 16
      → poll rc5 k source env t timestamp
        ≡ done (record t { sender = next_sender t timestamp }) (datagrams t timestamp)
  poll-early t timestamp early clock =
      let later : leb t.next_heartbeat timestamp ≡ false = ground arith in
      let e =
        poll_lem rc5 k source env t timestamp (omega arith) (all_taken env takes (due t timestamp))
          (all_taken env takes (datagrams t timestamp)) in
      let e' = rw later at e in e'

  poll-due :
      (t : ClientToServerSender S) (timestamp : ℕ)
      → t.next_heartbeat ≤ timestamp
      → timestamp + t.heartbeat_period < 2 ^ 16
      → poll rc5 k source env t timestamp
        ≡ done
            (record t {
              next_heartbeat = timestamp + t.heartbeat_period;
              sender = next_sender t timestamp;
            })
            (beats t ++ datagrams t timestamp)
  poll-due t timestamp now clock =
      let owed : leb t.next_heartbeat timestamp ≡ true = ground arith in
      let e =
        poll_lem rc5 k source env t timestamp clock (all_taken env takes (due t timestamp))
          (all_taken env takes (datagrams t timestamp)) in
      let e' = rw owed at e in e'

  -- Ticks that come sooner than the next heartbeat is set to bring no heartbeat.
  run-early :
      (t : ClientToServerSender S) (instant : ℕ) (later : List ℕ)
      → t.next_heartbeat + t.heartbeat_period ≤ 2 ^ 16
      → IsClose t.next_heartbeat instant later
      → (last : ClientToServerSender S) × (data_sent : List Packet) × (run
            (poll rc5 k source env)
            t
            (tokio_timestamps instant later)
          ≡ done last data_sent)
        × AllTo t.socket_addr data_sent
  unfolding run tokio_timestamps
  run-early t instant [] clock close = (t, [], refl, tt)
  run-early t instant (tick ∷ later) clock close =
      let timestamp = (tick - instant) % 2 ^ 16 in
      let early : timestamp < t.next_heartbeat = omega (arith, close.0) in
      let t' : ClientToServerSender S = record t { sender = next_sender t timestamp } in
      let (last, data_sent, e, all) = run-early t' tick later clock close.1 in
      (
        last,
        datagrams t timestamp ++ data_sent,
        rw (run, tokio_timestamps, poll-early t timestamp early clock, e) refl,
        AllTo-append t.socket_addr (datagrams t timestamp) data_sent
            (AllTo-copies t (poll_datagram rc5 k source t.sender timestamp).1) all,
      )

  -- A client's sending task that has been spawned on a TokioRuntime whose token nobody cancels,
  -- whatever the other tasks do, and in whatever order the tasks take their turns. Its next
  -- heartbeat is 0 and its heartbeat period is positive; the time from its first turn to its
  -- first tick and two periods fit 16 bits; each later tick comes less than a period after the
  -- one before; and the network takes all packets. What the task has sent after the last turn is
  -- one round of heartbeats, then only packets to its socket_addr: however long it runs, it sends
  -- no second heartbeat.
  pub turns_one_heartbeat :
      (runtime : TokioRuntime (ClientToServerSender S)) (schedule : List Event) (i : ℕ)
      (task : ClientToServerSender S) (w : Wake) (ws : List Wake) (tick : ℕ) (later : List ℕ)
      → running runtime ≡ true
      → Uncancelled schedule
      → get_or runtime.handles i finished ≡ spawned task
      → own i schedule ≡ w ∷ ws
      → ticks (w ∷ ws) ≡ tick ∷ later
      → task.next_heartbeat ≡ 0
      → 0 < task.heartbeat_period
      → (tick - w.now) % 2 ^ 16 + 2 * task.heartbeat_period ≤ 2 ^ 16
      → IsClose task.heartbeat_period tick later
      → (data_sent : List Packet) × (sent_by i (turns (poll rc5 k source env) schedule runtime).1
          ≡ beats task ++ data_sent)
        × AllTo task.socket_addr data_sent
  unfolding run tokio_timestamps
  turns_one_heartbeat runtime schedule i task w ws tick later up open_token here its found fresh
        some_period clock close =
      let timestamp = (tick - w.now) % 2 ^ 16 in
      let t1 : ClientToServerSender S = record task {
        next_heartbeat = timestamp + task.heartbeat_period;
        sender = next_sender task timestamp;
      } in
      let (last, data_sent, e, all) = run-early t1 tick later (omega arith) (
        IsClose-le task.heartbeat_period (timestamp + task.heartbeat_period) tick later
          (omega arith) close) in
      let whole : run (poll rc5 k source env) task (tokio_timestamps w.now (tick ∷ later))
          ≡ done last ((beats task ++ datagrams task timestamp) ++ data_sent) =
        rw (run, tokio_timestamps, poll-due task timestamp (omega arith) (omega arith), e) refl in
      let ran : run (poll rc5 k source env) task (tokio_timestamps w.now (ticks (w ∷ ws)))
          ≡ done last ((beats task ++ datagrams task timestamp) ++ data_sent) =
        ap (λ ts. run (poll rc5 k source env) task (tokio_timestamps w.now ts)) found ∙ whole in
      (
        datagrams task timestamp ++ data_sent,
        (turns-run (poll rc5 k source env) runtime schedule i task last w ws
              ((beats task ++ datagrams task timestamp) ++ data_sent) up open_token here its ran).2
            ∙ append_assoc (beats task) (datagrams task timestamp) data_sent,
        AllTo-append task.socket_addr (datagrams task timestamp) data_sent
            (AllTo-copies task (poll_datagram rc5 k source task.sender timestamp).1) all,
      )
