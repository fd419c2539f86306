-- ===== src/Proto/Link/Stream/Steps.antt =====
-- Polls keep what a sender holds and has sent.
use longboy.Prelude.{
  ℕ, suc, ◌+◌, ◌-◌, ◌%◌, ◌≤◌, ◌<◌, ◌≡◌, ◌≢◌, refl, sym, ◌∙◌, ap, subst, arith, Option, none, some,
  List, ◌∷◌, ◌++◌, length, get_or, set, any, get_or-set_self, get_or-set_ne, ==_of, ==_ne,
  ℕ_discrete, inl, inr, Bool-cases,
}
use mathlib.Core.Option.{some-injective}
use longboy.Prelude.Modular.{mod_bound, mod_below, mod_apart}
use longboy.Proto.Constants.{Constants, IsValid, max_cycle}
use longboy.Proto.Cipher.{Rc5}
use longboy.Proto.Sender.{Source, Sender, poll_datagram}
use longboy.Proto.Sender.Frame.{header, body}
use longboy.Proto.Sender.Refine.{
  Carries, present, ring, poll_datagram-sends, poll_datagram-silent, poll_datagram-Carries,
}
use longboy.Proto.Link.Frames.{Shows, AllShow, set-AllShow}
use longboy.Proto.Link.Sends.{next_input, poll-Sent}
use longboy.Proto.Link.Session.{empty-AllShow}
use longboy.Proto.Link.Stream.{
  input_of, entry, Run, start, quiet, send, IsSent, IsSent_more, Streams,
}

module _ (rc5 : Rc5) {k : Constants} (v : IsValid k) {S : Type 0} (source : Source k.size S)
    (s : Sender S) where
  slot_apart : (x n : ℕ) → x < n → n < x + k.window_size → n % k.window_size ≢ x % k.window_size
  slot_apart x n lt w e =
      let up : x + (n - x) ≡ n = omega arith in
      mod_apart x (n - x) k.window_size (omega arith) (omega arith)
        (ap (λ (t : ℕ). t % k.window_size) up ∙ e)

  quiet-Streams :
      (ins : List (Option (List ℕ))) (log : List (ℕ × List ℕ)) (t u : Sender S) (timestamp : ℕ)
      → Streams rc5 v source s ins log t
      → poll_datagram rc5 k source t timestamp ≡ (u, none)
      → Streams rc5 v source s ins log u
  quiet-Streams ins log t u timestamp h e =
      let full = ring rc5 v source t timestamp h.slots h.lead h.carries in
      elim (Bool-cases (any (present full))) [
        | inl some_there ↦
            let sends =
              poll_datagram-sends rc5 v source t timestamp h.slots h.lead h.carries some_there in
            absurd (cc (ap (λ w. w.1) (sym e ∙ sends)))
        | inr none_there ↦
            let silent =
              poll_datagram-silent rc5 v source t timestamp h.slots h.lead h.carries none_there in
            let same = ap (λ w. w.0) (sym silent ∙ e) in
            record {
              slots = full;
              lead = header rc5 t.cipher t.cycle timestamp;
              carries =
                  subst (λ w. Carries rc5 k w full (header rc5 t.cipher t.cycle timestamp))
                    (ap (λ w. w.0) e)
                    (poll_datagram-Carries rc5 v source t timestamp h.slots h.lead h.carries);
              cycle = sym (ap (λ w. w.cycle) same) ∙ h.cycle;
              cipher = sym (ap (λ w. w.cipher) same) ∙ h.cipher;
              shows = empty-AllShow rc5 s.cipher k.size full none_there;
              holds = λ x lt w.
                  get_or-set_ne h.slots (t.cycle % k.window_size) (x % k.window_size) _ none (λ q.
                    slot_apart x (length ins) lt w
                      (ap (λ (n : ℕ). n % k.window_size) (sym h.cycle) ∙ q))
                  ∙ h.holds x lt w;
              logged = h.logged;
              sent = h.sent;
            }
      ]

  module _ (ins : List (Option (List ℕ))) (log : List (ℕ × List ℕ)) (t u : Sender S) (timestamp : ℕ)
      (datagram : List ℕ) (h : Streams rc5 v source s ins log t)
      (e : poll_datagram rc5 k source t timestamp ≡ (u, some datagram))
      (new : Shows rc5 s.cipher k.size (next_input rc5 v source t)) where
    abbrev full : List (Option (List ℕ))
    full = set h.slots (t.cycle % k.window_size) (next_input rc5 v source t)

    abbrev more : List (Option (List ℕ))
    more = next_input rc5 v source t ∷ ins

    -- The ring behind the poll, at the cycle of the poll.
    full_holds :
        (x : ℕ)
        → x ≤ length ins
        → length ins < x + k.window_size
        → get_or full (x % k.window_size) none ≡ input_of more x
    full_holds x le w =
        let at = ap (λ (n : ℕ). n % k.window_size) h.cycle in
        elim (ℕ_discrete x (length ins)) [
          | yes same ↦
              let here : x % k.window_size ≡ t.cycle % k.window_size =
                ap (λ (n : ℕ). n % k.window_size) same ∙ sym at in
              rw (==_of x (length ins) same, here)
                (get_or-set_self h.slots (t.cycle % k.window_size) (next_input rc5 v source t) none
                  (let window = h.carries.window in
                    omega (arith, mod_bound t.cycle k.window_size v.window_pos)))
          | no other ↦ rw (==_ne x (length ins) other) (
              get_or-set_ne h.slots (t.cycle % k.window_size) (x % k.window_size) _ none
                (λ q. slot_apart x (length ins) (omega (arith, other)) w (sym at ∙ q))
              ∙ h.holds x (omega (arith, other)) w)
        ]

    full_shows : AllShow rc5 s.cipher k.size full
    full_shows = set-AllShow rc5 s.cipher k.size h.slots (t.cycle % k.window_size) _ h.shows new

    full_sent : IsSent rc5 k s.cipher (input_of more) (length ins) timestamp datagram
    full_sent =
        let one = poll-Sent rc5 v source t u h.slots h.lead timestamp datagram h.carries e in
        let frame : datagram
            ≡ header rc5 s.cipher (length ins) timestamp ++ body rc5 s.cipher k.size full =
          one.datagram_eq
          ∙ ap (λ c. header rc5 c t.cycle timestamp ++ body rc5 c k.size full) h.cipher
          ∙ ap (λ (n : ℕ). header rc5 s.cipher n timestamp ++ body rc5 s.cipher k.size full)
              h.cycle in
        record {
          slots = full;
          frame_eq = frame;
          sized = one.carries.sized;
          window = one.carries.window;
          shows = full_shows;
          holds = full_holds;
        }

    sent_next :
        (d stamp : ℕ) (bytes : List ℕ)
        → entry ((timestamp, datagram) ∷ log) d ≡ some (stamp, bytes)
        → (d < length more) × IsSent rc5 k s.cipher (input_of more) d stamp bytes
    sent_next d stamp bytes e' = elim (ℕ_discrete d (length log)) [
      | yes last ↦
          let at : d ≡ length ins = last ∙ h.logged in
          let found = rw (==_of d (length log) last) at e' in
          let pair = some-injective _ _ found in
          (
            omega arith,
            subst (λ (n : ℕ). IsSent rc5 k s.cipher (input_of more) n stamp bytes) (sym at)
                (subst (λ w. IsSent rc5 k s.cipher (input_of more) (length ins) w.0 w.1) pair
                  full_sent),
          )
      | no other ↦
          let found = rw (==_ne d (length log) other) at e' in
          let (below, old) = h.sent d stamp bytes found in
          (
            omega arith,
            IsSent_more rc5 k s.cipher (input_of ins) (input_of more) d stamp bytes
                (λ x le. rw (==_ne x (length ins) (λ q. absurd (omega arith))) refl) old,
          )
    ]

    send-Streams :
        suc (length ins) < max_cycle k → Streams rc5 v source s more ((timestamp, datagram) ∷ log) u
    send-Streams room =
        let one = poll-Sent rc5 v source t u h.slots h.lead timestamp datagram h.carries e in
        let next : (length ins + 1) % max_cycle k ≡ length ins + 1 = mod_below (omega arith) in
        let up : length ins + 1 ≡ suc (length ins) = omega arith in
        record {
          slots = full;
          lead = header rc5 t.cipher t.cycle timestamp;
          carries = one.carries;
          cycle = one.cycle ∙ ap (λ (c : ℕ). (c + 1) % max_cycle k) h.cycle ∙ next ∙ up;
          cipher = one.cipher ∙ h.cipher;
          shows = full_shows;
          holds = λ x lt w. full_holds x (omega arith) (omega arith);
          logged = ap suc h.logged;
          sent = sent_next;
        }

  module _ (slots : List (Option (List ℕ))) (lead : List ℕ) (carries : Carries rc5 k s slots lead)
      (first : s.cycle ≡ 0) (shows : AllShow rc5 s.cipher k.size slots) where
    -- What a sender that starts at cycle 0 holds and has sent.
    pub Run-Streams :
        {ins : List (Option (List ℕ))} {log : List (ℕ × List ℕ)} {t : Sender S}
        → length ins < max_cycle k
        → AllShow rc5 s.cipher k.size ins
        → Run rc5 v source s ins log t
        → Streams rc5 v source s ins log t
    Run-Streams room show start = record {
      slots = slots;
      lead = lead;
      carries = carries;
      cycle = first;
      cipher = refl;
      shows = shows;
      holds = λ x lt w. absurd (omega arith);
      logged = refl;
      sent = λ d timestamp datagram e. absurd (cc e);
    }
    Run-Streams room show (quiet earlier timestamp e) =
        quiet-Streams _ _ _ _ timestamp (Run-Streams room show earlier) e
    Run-Streams room show (send earlier timestamp e) =
        send-Streams _ _ _ _ timestamp _ (Run-Streams (omega arith) show.1 earlier) e show.0 room
