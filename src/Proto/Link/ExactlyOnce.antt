-- ===== src/Proto/Link/ExactlyOnce.antt =====
-- Whole histories of a receiver whose datagrams arrive in any order.
use longboy.Prelude.{
  ℕ, ◌%◌, ◌≡◌, refl, sym, ◌∙◌, ap, subst, arith, Bool, false, ◌||◌, Option, List, [], ◌∷◌, ◌++◌,
  foldl-append, get_or-replicate, if◌then◌else◌,
}
use longboy.Proto.Constants.{Constants, IsValid, max_buffered}
use longboy.Proto.Cipher
use longboy.Proto.Cipher.{Rc5, Cipher}
use longboy.Proto.Receiver
use longboy.Proto.Receiver.{Sink, Receiver, handle_datagram}
use longboy.Proto.Receiver.Cycles.{new-InRange}
use longboy.Proto.Receiver.Arrived.{covers, with_cycles, news}
use longboy.Proto.Link.AnyOrder.{Arrival, frame, IsTimely, InReach, deliver, Knows, arrival-Knows}
use longboy.Proto.Link.Tally.{tally, tally-append, if_none, tally-news, among_all, first_or_later}

module _ (rc5 : Rc5) (k : Constants) (cipher : Cipher) (inputs : ℕ → Option (List ℕ)) where
  -- Each datagram is in time, and reaches into the buffer when it arrives.
  abbrev pub AllTimely : (ℕ → Bool) → List Arrival → Type 0
  AllTimely arrived [] = Unit {0}
  AllTimely arrived (a ∷ arrivals) =
      IsTimely rc5 k cipher inputs a
      × InReach k arrived a.cycle
      × AllTimely (with_cycles k.window_size a.cycle arrived) arrivals

module _ (k : Constants) where
  -- What has arrived in the end, and the cycles that are handed over on the way.
  abbrev pub all_arrived : (ℕ → Bool) → List Arrival → ℕ → Bool
  all_arrived arrived [] = arrived
  all_arrived arrived (a ∷ arrivals) =
      all_arrived (with_cycles k.window_size a.cycle arrived) arrivals

  abbrev pub all_news : (ℕ → Bool) → List Arrival → List ℕ
  all_news arrived [] = []
  all_news arrived (a ∷ arrivals) =
      news k.window_size 0 a.cycle arrived
      ++ all_news (with_cycles k.window_size a.cycle arrived) arrivals

  -- Some datagram holds the cycle.
  abbrev pub any_covers : ℕ → List Arrival → Bool
  any_covers x [] = false
  any_covers x (a ∷ arrivals) = covers k.window_size a.cycle x || any_covers x arrivals

  tally-all_news :
      (x : ℕ) (arrived : ℕ → Bool) (arrivals : List Arrival)
      → tally x (all_news arrived arrivals)
        ≡ (if arrived x then 0 else (if any_covers x arrivals then 1 else 0))
  tally-all_news x arrived [] = if_none (arrived x)
  tally-all_news x arrived (a ∷ arrivals) =
      let later = tally-all_news x (with_cycles k.window_size a.cycle arrived) arrivals in
      let now = tally-news k.window_size 0 a.cycle x arrived in
      let now' = rw (among_all k.window_size a.cycle x) at now in
      tally-append x (news k.window_size 0 a.cycle arrived)
        (all_news (with_cycles k.window_size a.cycle arrived) arrivals)
      ∙ first_or_later _ _ (arrived x) (covers k.window_size a.cycle x) (any_covers x arrivals) now'
          later

module _ (rc5 : Rc5) {k : Constants} (v : IsValid k) {K : Type 0} (sink : Sink K) where
  -- A receiver is handed one datagram after the other.
  abbrev pub receive : Cipher → Receiver K → List Arrival → Receiver K
  receive cipher r [] = r
  receive cipher r (a ∷ arrivals) =
      receive cipher (handle_datagram rc5 k sink r a.now (frame rc5 k cipher a)).0 arrivals

  module _ (inputs : ℕ → Option (List ℕ)) where
    one_more :
        (cipher : Cipher) (arrived : ℕ → Bool) (r : Receiver K) (a : Arrival)
        → Knows rc5 v sink inputs arrived cipher r
        → IsTimely rc5 k cipher inputs a
        → InReach k arrived a.cycle
        → let r' = (handle_datagram rc5 k sink r a.now (frame rc5 k cipher a)).0 in
          Knows rc5 v sink inputs (with_cycles k.window_size a.cycle arrived) cipher r'
          × (r'.sink ≡ deliver rc5 v sink inputs r.sink (news k.window_size 0 a.cycle arrived))
    one_more cipher arrived r a h t reach =
        subst
          (λ c.
            IsTimely rc5 k c inputs a
            → let r' = (handle_datagram rc5 k sink r a.now (frame rc5 k c a)).0 in
              Knows rc5 v sink inputs (with_cycles k.window_size a.cycle arrived) c r'
              × (r'.sink ≡ deliver rc5 v sink inputs r.sink (news k.window_size 0 a.cycle arrived)))
          h.cipher_eq (λ t'. arrival-Knows rc5 v sink inputs arrived r a h.agrees t' h.waits reach)
          t

    receive-Knows :
        (cipher : Cipher) (arrived : ℕ → Bool) (r : Receiver K) (arrivals : List Arrival)
        → Knows rc5 v sink inputs arrived cipher r
        → AllTimely rc5 k cipher inputs arrived arrivals
        → (receive cipher r arrivals).sink
          ≡ deliver rc5 v sink inputs r.sink (all_news k arrived arrivals)
    receive-Knows cipher arrived r [] h t = refl
    receive-Knows cipher arrived r (a ∷ arrivals) h t =
        let q = (handle_datagram rc5 k sink r a.now (frame rc5 k cipher a)).0 in
        let (h', given) = one_more cipher arrived r a h t.0 t.1 in
        receive-Knows cipher (with_cycles k.window_size a.cycle arrived) q arrivals h' t.2
        ∙ ap
            (λ s.
              deliver rc5 v sink inputs s
                (all_news k (with_cycles k.window_size a.cycle arrived) arrivals))
            given
        ∙ sym (
            foldl-append _ r.sink (news k.window_size 0 a.cycle arrived)
              (all_news k (with_cycles k.window_size a.cycle arrived) arrivals))

    new-Knows :
        (key : ℕ) (s : K)
        → Knows rc5 v sink inputs (λ x. false) (Cipher.new key) (Receiver.new k key s)
    unfolding Receiver.new
    new-Knows key s =
        let (range, waits) = new-InRange v key s in
        record {
          agrees = record {
            in_ring = range.in_ring;
            size = range.size;
            behind = λ x l. absurd (omega arith);
            buffered = λ x a b. get_or-replicate (max_buffered k) false (x % max_buffered k);
            beyond = λ x a. refl;
            bound = λ x t. absurd (cc t);
          };
          waits = waits;
          cipher_eq = refl;
        }

    -- The receiver hands over each cycle that some datagram holds, once.
    pub receive_exactly_once :
        (key : ℕ) (s : K) (arrivals : List Arrival)
        → AllTimely rc5 k (Cipher.new key) inputs (λ x. false) arrivals
        → (handed : List ℕ) × ((receive (Cipher.new key) (Receiver.new k key s) arrivals).sink
            ≡ deliver rc5 v sink inputs s handed)
          × ((x : ℕ) → tally x handed ≡ (if any_covers k x arrivals then 1 else 0))
    unfolding Receiver.new
    receive_exactly_once key s arrivals t = (
      all_news k (λ x. false) arrivals,
      receive-Knows (Cipher.new key) (λ x. false) (Receiver.new k key s) arrivals (new-Knows key s)
          t,
      λ x. tally-all_news k x (λ y. false) arrivals,
    )
