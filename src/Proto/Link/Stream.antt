-- ===== src/Proto/Link/Stream.antt =====
-- Everything that a sender sends before the cycle wraps.
pub mod Steps
use longboy.Prelude.{
  ℕ, suc, ◌+◌, ◌-◌, ◌%◌, ◌≤◌, ◌<◌, ◌≡◌, ◌≢◌, refl, sym, ◌∙◌, ap, subst, arith, Option, none, some,
  List, [], ◌∷◌, ◌++◌, length, get_or, set, any, get_or-set_self, get_or-set_ne, ◌==◌, ==_of, ==_ne,
  ℕ_discrete, inl, inr, Bool-cases, if◌then◌else◌,
}
use mathlib.Core.Option.{some-injective}
use longboy.Prelude.Modular.{mod_bound, mod_below, mod_apart}
use longboy.Proto.Constants.{Constants, IsValid, max_cycle}
use longboy.Proto.Cipher.{Rc5, Cipher}
use longboy.Proto.Sender.{Source, Sender, poll_datagram}
use longboy.Proto.Sender.Frame.{Sized, header, body}
use longboy.Proto.Sender.Refine.{
  Carries, present, ring, poll_datagram-sends, poll_datagram-silent, poll_datagram-Carries,
}
use longboy.Proto.Link.Frames.{Shows, AllShow, set-AllShow}
use longboy.Proto.Link.Sends.{next_input, poll-Sent}
use longboy.Proto.Link.Session.{empty-AllShow}

-- The input of a cycle, and what was sent with it, where the newest is listed first.
abbrev pub input_of : List (Option (List ℕ)) → ℕ → Option (List ℕ)
input_of [] x = none
input_of (p ∷ ins) x = if x == length ins then p else input_of ins x

abbrev pub entry : List (ℕ × List ℕ) → ℕ → Option (ℕ × List ℕ)
entry [] d = none
entry (e ∷ log) d = if d == length log then some e else entry log d

module _ (rc5 : Rc5) {k : Constants} (v : IsValid k) {S : Type 0} (source : Source k.size S) where
  -- Polls of a sender. A poll that sends nothing stays at its cycle; of one that sends, the input
  -- is listed, and its timestamp with its datagram.
  pub data Run (s : Sender S) : List (Option (List ℕ)) → List (ℕ × List ℕ) → Sender S → Type 0 where
    start : Run s [] [] s
    quiet :
        {ins : List (Option (List ℕ))} {log : List (ℕ × List ℕ)} {t u : Sender S}
        → Run s ins log t
        → (timestamp : ℕ) → poll_datagram rc5 k source t timestamp ≡ (u, none)
        → Run s ins log u
    send :
        {ins : List (Option (List ℕ))} {log : List (ℕ × List ℕ)} {t u : Sender S}
        {datagram : List ℕ}
        → Run s ins log t
        → (timestamp : ℕ) → poll_datagram rc5 k source t timestamp ≡ (u, some datagram)
        → Run s (next_input rc5 v source t ∷ ins) ((timestamp, datagram) ∷ log) u

module _ (rc5 : Rc5) (k : Constants) (cipher : Cipher) where
  -- A datagram of cycle `d` that holds the inputs of the window up to it.
  pub record IsSent (inputs : ℕ → Option (List ℕ)) (d timestamp : ℕ) (datagram : List ℕ)
      : Type 0 where
    pub slots : List (Option (List ℕ))
    pub frame_eq : datagram ≡ header rc5 cipher d timestamp ++ body rc5 cipher k.size slots
    pub sized : Sized k.size slots
    pub window : length slots ≡ k.window_size
    pub shows : AllShow rc5 cipher k.size slots
    pub holds :
        (x : ℕ) → x ≤ d → d < x + k.window_size → get_or slots (x % k.window_size) none ≡ inputs x

  -- More inputs, of later cycles, do not matter.
  pub IsSent_more :
      (inputs inputs' : ℕ → Option (List ℕ)) (d timestamp : ℕ) (datagram : List ℕ)
      → ((x : ℕ) → x ≤ d → inputs' x ≡ inputs x)
      → IsSent inputs d timestamp datagram
      → IsSent inputs' d timestamp datagram
  IsSent_more inputs inputs' d timestamp datagram same h = record {
    slots = h.slots;
    frame_eq = h.frame_eq;
    sized = h.sized;
    window = h.window;
    shows = h.shows;
    holds = λ x a b. h.holds x a b ∙ sym (same x a);
  }

module _ (rc5 : Rc5) {k : Constants} (v : IsValid k) {S : Type 0} (source : Source k.size S)
    (s : Sender S) where
  pub record Streams (ins : List (Option (List ℕ))) (log : List (ℕ × List ℕ)) (t : Sender S)
      : Type 0 where
    pub slots : List (Option (List ℕ))
    pub lead : List ℕ
    pub carries : Carries rc5 k t slots lead
    pub cycle : t.cycle ≡ length ins
    pub cipher : t.cipher ≡ s.cipher
    pub shows : AllShow rc5 s.cipher k.size slots
    pub holds :
        (x : ℕ)
        → x < length ins
        → length ins < x + k.window_size
        → get_or slots (x % k.window_size) none ≡ input_of ins x
    pub logged : length log ≡ length ins
    pub sent :
        (d timestamp : ℕ) (datagram : List ℕ)
        → entry log d ≡ some (timestamp, datagram)
        → (d < length ins) × IsSent rc5 k s.cipher (input_of ins) d timestamp datagram
