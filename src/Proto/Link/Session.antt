-- ===== src/Proto/Link/Session.antt =====
-- Whole sessions over a network that loses datagrams.
use longboy.Prelude.{
  ℕ, zero, suc, ◌+◌, ◌-◌, ◌%◌, ◌^◌, ◌≤◌, ◌<◌, ◌≡◌, refl, sym, ◌∙◌, ap, subst, false, Option, none,
  some, List, [], ◌∷◌, ◌++◌, foldl, foldl-append, length, replicate, get_or-replicate, any,
  Bool-cases, inl, inr,
}
use longboy.Proto.Constants.{Constants, IsValid, max_buffered}
use longboy.Proto.Cipher.{Rc5, Cipher}
use longboy.Proto.Sender.{Source, Sender, poll_datagram}
use longboy.Proto.Sender
use longboy.Proto.Sender.Frame.{header}
use longboy.Proto.Sender.Refine.{
  Carries, present, ring, poll_datagram-sends, poll_datagram-silent, poll_datagram-Carries,
  new-Carries,
}
use longboy.Proto.Receiver
use longboy.Proto.Receiver.{Sink, Receiver, handle_datagram}
use longboy.Proto.Receiver.Slots.{give}
use longboy.Proto.Receiver.Cycles.{new-InRange}
use longboy.Proto.Link.Frames.{AllShow}
use longboy.Proto.Link.Sends.{Sends, Sends-Held}
use longboy.Proto.Link.Burst.{InSync, burst_recovered}

-- An empty ring shows trivially.
pub empty-AllShow :
    (rc5 : Rc5) (c : Cipher) (size : ℕ) (ps : List (Option (List ℕ)))
    → any (present ps) ≡ false
    → AllShow rc5 c size ps
empty-AllShow rc5 c size [] h = tt
empty-AllShow rc5 c size (none ∷ ps) h = (tt, empty-AllShow rc5 c size ps h)
empty-AllShow rc5 c size (some p ∷ ps) h = absurd (cc h)

module _ (rc5 : Rc5) {k : Constants} (v : IsValid k) {S K : Type 0} (source : Source k.size S)
    (sink : Sink K) where
  -- What a session can do: a poll that sends nothing, or a burst of polls of which the last one's
  -- datagram arrives in time. The list is what the source has put in, burst by burst, the newest
  -- input of a burst first.
  pub data Session (s : Sender S) (r : Receiver K)
      : Sender S → Receiver K → List (Option (List ℕ)) → Type 0 where
    start : Session s r s r []
    quiet :
        {t u : Sender S} {q : Receiver K} {done : List (Option (List ℕ))}
        → Session s r t q done
        → (timestamp : ℕ) → poll_datagram rc5 k source t timestamp ≡ (u, none)
        → Session s r u q done
    burst :
        {t u : Sender S} {q : Receiver K} {done ins : List (Option (List ℕ))} {cycle timestamp : ℕ}
        {datagram : List ℕ}
        → Session s r t q done
        → Sends rc5 v source t ins u cycle timestamp datagram
        → 0 < length ins
        → length ins ≤ k.window_size
        → length ins ≤ 257
        → AllShow rc5 s.cipher k.size ins
        → (now : ℕ) → now < 2 ^ 16
        → timestamp < 2 ^ 16
        → (now + 2 ^ 16 - timestamp) % 2 ^ 16 ≤ 2048
        → Session s r u (handle_datagram rc5 k sink q now datagram).0 (done ++ ins)

  record Good (s : Sender S) (r : Receiver K) (t : Sender S) (q : Receiver K)
      (done : List (Option (List ℕ))) : Type 0 where
    ps : List (Option (List ℕ))
    lead : List ℕ
    carries : Carries rc5 k t ps lead
    shows : AllShow rc5 s.cipher k.size ps
    cipher : t.cipher ≡ s.cipher
    sync : InSync rc5 k t q
    delivered : q.sink ≡ foldl (give rc5 v sink) r.sink done

  quiet-Good :
      (s : Sender S) (r : Receiver K) (t u : Sender S) (q : Receiver K)
      (done : List (Option (List ℕ))) (timestamp : ℕ)
      → poll_datagram rc5 k source t timestamp ≡ (u, none)
      → Good s r t q done
      → Good s r u q done
  quiet-Good s r t u q done timestamp e g = elim (Bool-cases (any (present full))) [
    | inl some_left ↦
        absurd (
          cc (sym e ∙ poll_datagram-sends rc5 v source t timestamp g.ps g.lead g.carries some_left))
    | inr none_left ↦
        let silent =
          sym e ∙ poll_datagram-silent rc5 v source t timestamp g.ps g.lead g.carries none_left in
        record {
          ps = full;
          lead = _;
          carries =
              subst (λ w. Carries rc5 k w.0 full (header rc5 t.cipher t.cycle timestamp)) e
                (poll_datagram-Carries rc5 v source t timestamp g.ps g.lead g.carries);
          shows = empty-AllShow rc5 s.cipher k.size full none_left;
          cipher = ap (λ w. w.0.cipher) silent ∙ g.cipher;
          sync = record {
            clear = g.sync.clear;
            cycle = g.sync.cycle ∙ sym (ap (λ w. w.0.cycle) silent);
            cipher = g.sync.cipher ∙ sym (ap (λ w. w.0.cipher) silent);
          };
          delivered = g.delivered;
        }
  ]
    where
      full : List (Option (List ℕ))
      full = ring rc5 v source t timestamp g.ps g.lead g.carries

  Session-Good :
      {s : Sender S} {r : Receiver K} {t : Sender S} {q : Receiver K}
      {done : List (Option (List ℕ))}
      → Good s r s r []
      → Session s r t q done
      → Good s r t q done
  Session-Good g start = g
  Session-Good {s} {r} g (quiet {t = t} {u = u} {q = q} {done = done} earlier timestamp e) =
      quiet-Good s r t u q done timestamp e (Session-Good g earlier)
  Session-Good {s} {r} g
        (burst {q = q} {done = done} {ins = ins} earlier sends pos hw small shows now hn ht late) =
      let h = Session-Good g earlier in
      let held = Sends-Held rc5 v source h.ps h.lead h.carries (rw h.cipher h.shows) hw sends in
      let (sync, delivered) =
        burst_recovered rc5 v source sink q now h.ps h.lead h.carries h.sync sends pos hw small hn
          ht late (rw h.cipher h.shows) (rw h.cipher shows) in
      record {
        ps = held.ps;
        lead = held.lead;
        carries = held.carries;
        shows = rw h.cipher at (held.shows (rw h.cipher shows));
        cipher = held.cipher ∙ h.cipher;
        sync = sync;
        delivered =
            delivered
            ∙ ap (λ b. foldl (give rc5 v sink) b ins) h.delivered
            ∙ sym (foldl-append (give rc5 v sink) r.sink done ins);
      }

  -- A session that starts in agreement ends in agreement, and the sink has been handed every
  -- payload that the source put in exactly once, burst by burst and newest first within a burst,
  -- also where the cycle wraps. The polls of a burst all send; it is at most a window and at most
  -- 257 polls long, its last datagram arrives within 2048 ms, and no payload's ciphertext is all
  -- zeros.
  pub delivers_all :
      {s : Sender S} {r : Receiver K} {t : Sender S} {q : Receiver K}
      {done : List (Option (List ℕ))} (ps : List (Option (List ℕ))) (lead : List ℕ)
      → Carries rc5 k s ps lead
      → AllShow rc5 s.cipher k.size ps
      → InSync rc5 k s r
      → Session s r t q done
      → InSync rc5 k t q × (q.sink ≡ foldl (give rc5 v sink) r.sink done)
  delivers_all ps lead carries shows sync session =
      let g =
        Session-Good
          (record {
            ps = ps;
            lead = lead;
            carries = carries;
            shows = shows;
            cipher = refl;
            sync = sync;
            delivered = refl;
          })
          session in
      (g.sync, g.delivered)

  new-InSync :
      (key : ℕ) (from : S) (to : K) → InSync rc5 k (Sender.new k key from) (Receiver.new k key to)
  unfolding Sender.new Receiver.new
  new-InSync key from to = record {
    clear = record {
      in_ring = (new-InRange v key to).0.in_ring;
      size = (new-InRange v key to).0.size;
      clear = λ i. get_or-replicate (max_buffered k) false i;
    };
    cycle = refl;
    cipher = refl;
  }

  none-AllShow : (c : Cipher) (n : ℕ) → AllShow rc5 c k.size (replicate n none)
  none-AllShow c zero = tt
  none-AllShow c (suc n) = (tt, none-AllShow c n)

  new-sink : (key : ℕ) (to : K) → (Receiver.new k key to).sink ≡ to
  unfolding Receiver.new
  new-sink key to = refl

  -- A new sender and a new receiver with one key, through any session: the sink is handed exactly
  -- what the source has put in, burst by burst and newest first within a burst, and the two agree
  -- on the cycle at the end. The polls of a burst all send; it is at most a window and at most
  -- 257 polls long, its last datagram arrives within 2048 ms, and no payload's ciphertext is all
  -- zeros.
  pub delivers_all_from_new :
      (key : ℕ) (from : S) (to : K) {t : Sender S} {q : Receiver K} {done : List (Option (List ℕ))}
      → Session (Sender.new k key from) (Receiver.new k key to) t q done
      → InSync rc5 k t q × (q.sink ≡ foldl (give rc5 v sink) to done)
  delivers_all_from_new key from to {done = done} session =
      let (sync, delivered) =
        delivers_all (replicate k.window_size none) (replicate 4 0) (new-Carries rc5 v key from)
          (none-AllShow (Sender.new k key from).cipher k.window_size) (new-InSync key from to)
          session in
      (sync, delivered ∙ ap (λ b. foldl (give rc5 v sink) b done) (new-sink key to))
