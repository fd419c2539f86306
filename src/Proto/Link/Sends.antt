-- ===== src/Proto/Link/Sends.antt =====
-- Runs of polls that all send, and what the sender holds behind them.
use longboy.Prelude.{
  ℕ, suc, ◌+◌, ◌-◌, ◌%◌, ◌≤◌, ◌<◌, ◌≡◌, refl, sym, ◌∙◌, ap, subst, arith, Option, some, List, [],
  ◌∷◌, ◌++◌, length, set, any, Bool-cases, inl, inr,
}
use longboy.Prelude.Slices.{slice}
use longboy.Prelude.Modular.{mod_bound, mod_below, mod_suc}
use longboy.Proto.Constants.{Constants, IsValid, max_cycle}
use longboy.Proto.Cipher.{Rc5}
use longboy.Proto.Sender.{Source, Sender, slot_start, poll_datagram}
use longboy.Proto.Sender.Frame.{header, body, slice-frame}
use longboy.Proto.Sender.Refine.{
  Carries, present, input, answer, ring, poll_datagram-sends, poll_datagram-silent,
  poll_datagram-Carries,
}
use longboy.Proto.Link.Frames.{AllShow, set-AllShow, newest}
use longboy.Proto.Link.Window.{newest-step}

module _ (rc5 : Rc5) {k : Constants} (v : IsValid k) {S : Type 0} (source : Source k.size S) where
  -- What the source puts into the slot that comes round at the next poll.
  abbrev pub next_input : Sender S → Option (List ℕ)
  next_input s =
      let (ready, slot, _) =
        source.poll s.source
          (slice s.buffer (slot_start k.size (s.cycle % k.window_size)) k.size) in
      input ready slot

  -- Polls that all send. The inputs are listed newest first; the last datagram is `datagram`, of
  -- cycle `cycle` and time `timestamp`.
  pub data Sends (s : Sender S) : List (Option (List ℕ)) → Sender S → ℕ → ℕ → List ℕ → Type 0 where
    idle : Sends s [] s 0 0 []
    send :
        {ps : List (Option (List ℕ))} {t u : Sender S} {cycle before : ℕ} {old datagram : List ℕ}
        → Sends s ps t cycle before old
        → (timestamp : ℕ) → poll_datagram rc5 k source t timestamp ≡ (u, some datagram)
        → Sends s (next_input t ∷ ps) u t.cycle timestamp datagram

  -- A poll that sends, as an update of the ring.
  pub record Sent (t u : Sender S) (ps : List (Option (List ℕ))) (timestamp : ℕ) (datagram : List ℕ)
      : Type 0 where
    pub carries :
        Carries rc5 k u
          (set ps (t.cycle % k.window_size) (next_input t))
          (header rc5 t.cipher t.cycle timestamp)
    pub cipher : u.cipher ≡ t.cipher
    pub cycle : u.cycle ≡ (t.cycle + 1) % max_cycle k
    pub datagram_eq :
        datagram
        ≡ header rc5 t.cipher t.cycle timestamp
          ++ body rc5 t.cipher k.size (set ps (t.cycle % k.window_size) (next_input t))

  pub poll-Sent :
      (t u : Sender S) (ps : List (Option (List ℕ))) (lead : List ℕ) (timestamp : ℕ)
      (datagram : List ℕ)
      → Carries rc5 k t ps lead
      → poll_datagram rc5 k source t timestamp ≡ (u, some datagram)
      → Sent t u ps timestamp datagram
  poll-Sent t u ps lead timestamp datagram carries e = elim (Bool-cases (any (present full))) [
    | inl t' ↦
        let whole = sym e ∙ poll_datagram-sends rc5 v source t timestamp ps lead carries t' in
        let shown : some datagram ≡ some (lead' ++ body rc5 t.cipher k.size full) =
          ap (λ w. w.1) whole in
        record {
          carries =
              subst (λ w. Carries rc5 k w.0 (set ps (t.cycle % k.window_size) (next_input t)) lead')
                e (rw same (poll_datagram-Carries rc5 v source t timestamp ps lead carries));
          cipher = ap (λ w. w.0.cipher) whole;
          cycle = ap (λ w. w.0.cycle) whole;
          datagram_eq = rw same (cc);
        }
    | inr f ↦ absurd (cc (sym e ∙ poll_datagram-silent rc5 v source t timestamp ps lead carries f))
  ]
    where
      full : List (Option (List ℕ))
      full = ring rc5 v source t timestamp ps lead carries

      lead' : List ℕ
      lead' = header rc5 t.cipher t.cycle timestamp

      same :
          next_input t
          ≡ input
              (answer rc5 v source t timestamp ps lead carries).0
              (answer rc5 v source t timestamp ps lead carries).1
      same =
          let i = t.cycle % k.window_size in
          ap (λ b. let (ready, slot, _) = source.poll t.source b in input ready slot)
            (ap (λ b. slice b (slot_start k.size i) k.size) carries.buffer
              ∙ slice-frame rc5 t.cipher k.size lead ps i carries.lead_size carries.sized
                  (omega (arith, carries.window, mod_bound t.cycle k.window_size v.window_pos)))

  -- What the sender holds after `n` polls that sent: their inputs, in the slots of the last `n`
  -- cycles.
  pub record Held (s : Sender S) (ins : List (Option (List ℕ))) (t : Sender S) (cycle timestamp : ℕ)
      (datagram : List ℕ) : Type 0 where
    pub ps : List (Option (List ℕ))
    pub lead : List ℕ
    pub carries : Carries rc5 k t ps lead
    pub cipher : t.cipher ≡ s.cipher
    pub next : t.cycle ≡ (s.cycle + length ins) % max_cycle k
    pub held : newest k ps t.cycle (length ins) 1 ≡ ins
    pub shows : AllShow rc5 s.cipher k.size ins → AllShow rc5 s.cipher k.size ps
    pub last : 0 < length ins → cycle ≡ (s.cycle + (length ins - 1)) % max_cycle k
    pub sent :
        0 < length ins
        → datagram ≡ header rc5 s.cipher cycle timestamp ++ body rc5 s.cipher k.size ps

  pub Sends-Held :
      {s : Sender S} {ins : List (Option (List ℕ))} {t : Sender S} {cycle timestamp : ℕ}
      {datagram : List ℕ} (ps : List (Option (List ℕ))) (lead : List ℕ)
      → Carries rc5 k s ps lead
      → AllShow rc5 s.cipher k.size ps
      → length ins ≤ k.window_size
      → Sends s ins t cycle timestamp datagram
      → Held s ins t cycle timestamp datagram
  Sends-Held {s} ps lead carries old w idle = record {
    ps = ps;
    lead = lead;
    carries = carries;
    cipher = refl;
    next = let e : s.cycle + 0 ≡ s.cycle = omega arith in rw e (sym (mod_below carries.in_ring));
    held = refl;
    shows = λ h. old;
    last = λ h. absurd (omega arith);
    sent = λ h. absurd (omega arith);
  }
  Sends-Held {s} ps lead carries old w
        (send {ps = ins} {t = t} {u = u} {datagram = datagram} earlier timestamp e) =
      let h = Sends-Held ps lead carries old (omega arith) earlier in
      let one = poll-Sent t u h.ps h.lead timestamp datagram h.carries e in
      record {
        ps = set h.ps (t.cycle % k.window_size) (next_input t);
        lead = _;
        carries = one.carries;
        cipher = one.cipher ∙ h.cipher;
        next =
            one.cycle
            ∙ ap (λ (c : ℕ). (c + 1) % max_cycle k) h.next
            ∙ mod_suc (s.cycle + length ins) (max_cycle k)
            ∙ (let e' : s.cycle + length ins + 1 ≡ s.cycle + suc (length ins) = omega arith in
                rw e');
        held =
            ap
              (λ (c : ℕ).
                newest k (set h.ps (t.cycle % k.window_size) (next_input t)) c (suc (length ins)) 1)
              one.cycle
            ∙ (newest-step v h.ps (next_input t) t.cycle (length ins) h.carries.in_ring w
                  h.carries.window
                ∙ ap (◌∷◌ (next_input t)) h.held);
        shows = λ new.
            set-AllShow rc5 s.cipher k.size h.ps (t.cycle % k.window_size) (next_input t)
              (h.shows new.1) new.0;
        last = λ _. let e' : suc (length ins) - 1 ≡ length ins = omega arith in rw e' h.next;
        sent = λ _. rw (← h.cipher) one.datagram_eq;
      }
