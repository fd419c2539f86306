-- ===== src/Proto/Link/Unordered.antt =====
-- A new sender and a new receiver with one key between them, over a network that may lose, repeat
-- and reorder datagrams, before the cycle wraps.
use longboy.Prelude.{
  ℕ, zero, suc, ◌+◌, ◌-◌, ◌%◌, ◌^◌, ◌≤◌, ◌<◌, ◌≡◌, refl, sym, ◌∙◌, ap, arith, Bool, false, ◌||◌,
  Option, none, some, List, [], ◌∷◌, length, replicate, if◌then◌else◌,
}
use longboy.Proto.Constants.{Constants, IsValid, max_cycle, max_buffered}
use longboy.Proto.Constants.Bounds.{ranges}
use longboy.Proto.Cipher
use longboy.Proto.Cipher.{Rc5, Cipher}
use longboy.Proto.Sender
use longboy.Proto.Sender.{Source, Sender}
use longboy.Proto.Sender.Refine.{new-Carries}
use longboy.Proto.Receiver
use longboy.Proto.Receiver.{Sink, Receiver, handle_datagram}
use longboy.Proto.Receiver.Arrived.{covers, with_cycles}
use longboy.Proto.Link.Frames.{AllShow}
use longboy.Proto.Link.AnyOrder.{Arrival, InReach, deliver}
use longboy.Proto.Link.Tally.{tally}
use longboy.Proto.Link.ExactlyOnce.{AllTimely, any_covers, receive, receive_exactly_once}
use longboy.Proto.Link.Stream.{input_of, entry, Run, Streams}
use longboy.Proto.Link.Stream.Steps.{Run-Streams}

-- The network brings the datagram of a cycle, at a time.
pub record Pick : Type 0 where
  pub cycle : ℕ
  pub now : ℕ

abbrev pub bytes_of : Option (ℕ × List ℕ) → List ℕ
bytes_of none = []
bytes_of (some (timestamp, datagram)) = datagram

-- The datagram was sent, and comes in time.
pub record Comes (log : List (ℕ × List ℕ)) (q : Pick) : Type 0 where
  pub timestamp : ℕ
  pub datagram : List ℕ
  pub sent : entry log q.cycle ≡ some (timestamp, datagram)
  pub stamped : timestamp < 2 ^ 16
  pub late : (q.now + 2 ^ 16 - timestamp) % 2 ^ 16 ≤ 2048

-- All of them do, and none reaches a buffer or 257 cycles beyond one that is still missing.
abbrev pub AllCome : Constants → List (ℕ × List ℕ) → (ℕ → Bool) → List Pick → Type 0
AllCome k log arrived [] = Unit {0}
AllCome k log arrived (q ∷ picks) =
    Comes log q
    × InReach k arrived q.cycle
    × AllCome k log (with_cycles k.window_size q.cycle arrived) picks

-- Some datagram that comes holds the cycle.
abbrev pub any_picked : Constants → ℕ → List Pick → Bool
any_picked k x [] = false
any_picked k x (q ∷ picks) = covers k.window_size q.cycle x || any_picked k x picks

none-AllShow : (rc5 : Rc5) (c : Cipher) (size n : ℕ) → AllShow rc5 c size (replicate n none)
none-AllShow rc5 c size zero = tt
none-AllShow rc5 c size (suc n) = (tt, none-AllShow rc5 c size n)

module _ (rc5 : Rc5) {k : Constants} (v : IsValid k) {K : Type 0} (sink : Sink K) where
  -- The receiver is handed one datagram after the other.
  abbrev pub receive_picks : List (ℕ × List ℕ) → Receiver K → List Pick → Receiver K
  receive_picks log r [] = r
  receive_picks log r (q ∷ picks) =
      receive_picks log (handle_datagram rc5 k sink r q.now (bytes_of (entry log q.cycle))).0 picks

  module _ {S : Type 0} (source : Source k.size S) (s : Sender S) (ins : List (Option (List ℕ)))
      (log : List (ℕ × List ℕ)) (t : Sender S) (h : Streams rc5 v source s ins log t)
      (clear : length ins + max_buffered k + 257 ≤ max_cycle k) where
    -- The same arrivals, with the rings that they hold.
    record Same (arrived : ℕ → Bool) (picks : List Pick) : Type 0 where
      arrivals : List Arrival
      timely : AllTimely rc5 k s.cipher (input_of ins) arrived arrivals
      bytes : (r : Receiver K) → receive rc5 v sink s.cipher r arrivals ≡ receive_picks log r picks
      cycles : (x : ℕ) → any_covers k x arrivals ≡ any_picked k x picks

    picks-Same :
        (arrived : ℕ → Bool) (picks : List Pick) → AllCome k log arrived picks → Same arrived picks
    picks-Same arrived [] all = record {
      arrivals = [];
      timely = tt;
      bytes = λ r. refl;
      cycles = λ x. refl;
    }
    picks-Same arrived (q ∷ picks) all =
        let (below, one) = h.sent q.cycle all.0.timestamp all.0.datagram all.0.sent in
        let rest = picks-Same (with_cycles k.window_size q.cycle arrived) picks all.2 in
        let first : Arrival = record {
          cycle = q.cycle;
          timestamp = all.0.timestamp;
          ring = one.slots;
          now = q.now;
        } in
        let same = ap bytes_of all.0.sent ∙ one.frame_eq in
        record {
          arrivals = first ∷ rest.arrivals;
          timely = (
            record {
              clear = omega arith;
              sized = one.sized;
              window = one.window;
              shows = one.shows;
              holds = one.holds;
              stamped = all.0.stamped;
              late = all.0.late;
            },
            all.1,
            rest.timely,
          );
          bytes = λ r.
              rest.bytes _
              ∙ ap (λ b. receive_picks log (handle_datagram rc5 k sink r q.now b).0 picks)
                  (sym same);
          cycles = λ x. ap (λ b. covers k.window_size q.cycle x || b) (rest.cycles x);
        }

  -- A new sender and a new receiver with one key, over a network that loses, repeats and reorders
  -- datagrams. The sender polls any number of times, ins are the inputs of the polls that sent,
  -- no input's ciphertext is all zeros, and the sender stays MAX_BUFFERED + 257 cycles short of
  -- the wrap of the cycle. The receiver is brought any of the datagrams sent, in any order, any
  -- of them any number of times, each within 2048 ms, and none MAX_BUFFERED or 257 or more cycles
  -- beyond one that is still missing. Then its sink has been handed the inputs of certain cycles,
  -- and a cycle is among them exactly once if some datagram that came is of that cycle or less
  -- than a window ahead of it, and otherwise not at all.
  pub receive_picks_exactly_once :
      {S : Type 0} (source : Source k.size S) (key : ℕ) (from : S) (s : K)
      {ins : List (Option (List ℕ))} {log : List (ℕ × List ℕ)} {t : Sender S} (picks : List Pick)
      → Run rc5 v source (Sender.new k key from) ins log t
      → AllShow rc5 (Cipher.new key) k.size ins
      → length ins + max_buffered k + 257 ≤ max_cycle k
      → AllCome k log (λ x. false) picks
      → (handed : List ℕ) × ((receive_picks log (Receiver.new k key s) picks).sink
          ≡ deliver rc5 v sink (input_of ins) s handed)
        × ((x : ℕ) → tally x handed ≡ (if any_picked k x picks then 1 else 0))
  unfolding Sender.new
  receive_picks_exactly_once source key from s {ins} {log} {t} picks run shows clear all =
      let h =
        Run-Streams rc5 v source (Sender.new k key from) (replicate k.window_size none)
          (replicate 4 0) (new-Carries rc5 v key from) refl
          (none-AllShow rc5 (Cipher.new key) k.size k.window_size) (omega (arith, ranges v)) shows
          run in
      let same =
        picks-Same source (Sender.new k key from) ins log t h clear (λ x. false) picks all in
      let (handed, given, once) =
        receive_exactly_once rc5 v sink (input_of ins) key s same.arrivals same.timely in
      (
        handed,
        sym (ap (λ r. r.sink) (same.bytes (Receiver.new k key s))) ∙ given,
        λ x. once x ∙ ap (λ b. if b then 1 else 0) (same.cycles x),
      )
