-- ===== src/Proto/Link/Late.antt =====
-- Datagrams that are under way for too long.
use mathlib.Core.Option.{some-injective}
use longboy.Prelude.{
  ℕ, ◌+◌, ◌-◌, ◌%◌, ◌^◌, ◌<◌, ◌≡◌, sym, ◌∙◌, ap, arith, Option, some, List, ◌++◌, any, Bool-cases,
  inl, inr,
}
use longboy.Prelude.Slices.{slice}
use longboy.Prelude.Bytes.{from_le_bytes}
use longboy.Proto.Constants.{Constants, IsValid}
use longboy.Proto.Cipher.{Rc5}
use longboy.Proto.Sender.{Source, Sender, poll_datagram}
use longboy.Proto.Sender.Frame.{header, body}
use longboy.Proto.Sender.Refine.{Carries, present, ring, poll_datagram-sends, poll_datagram-silent}
use longboy.Proto.Receiver.{Sink, Receiver, open_header, handle_datagram}
use longboy.Proto.Receiver.Rejects.{handle_datagram-stale}
use longboy.Proto.Link.Frames.{open_header-frame, timestamp_word}

module _ (rc5 : Rc5) {k : Constants} (v : IsValid k) {S K : Type 0} (source : Source k.size S)
    (sink : Sink K) where
  -- A sender that carries any ring polls at a timestamp, and the poll sends; the datagram comes
  -- to a receiver with the same key, in whatever state, more than 2048 ms and less than 2 ^ 16 ms
  -- later, by a clock that counts ms modulo 2 ^ 16, so also where it wraps on the way. It changes
  -- nothing.
  pub handle_datagram-late :
      (s t : Sender S) (r : Receiver K) (sent age : ℕ) (datagram : List ℕ)
      (ps : List (Option (List ℕ))) (lead : List ℕ)
      → Carries rc5 k s ps lead
      → r.cipher ≡ s.cipher
      → poll_datagram rc5 k source s sent ≡ (t, some datagram)
      → sent < 2 ^ 16
      → 2048 < age
      → age < 2 ^ 16
      → (handle_datagram rc5 k sink r ((sent + age) % 2 ^ 16) datagram).0 ≡ r
  handle_datagram-late s t r sent age datagram ps lead carries same e clock late wrap =
      let full = ring rc5 v source s sent ps lead carries in
      elim (Bool-cases (any (present full))) [
        | inl sends ↦
            let whole = sym e ∙ poll_datagram-sends rc5 v source s sent ps lead carries sends in
            let frame = some-injective _ _ (ap (λ w. w.1) whole) in
            let rest = body rc5 s.cipher k.size full in
            let keyed : datagram ≡ header rc5 r.cipher s.cycle sent ++ rest =
              frame ∙ ap (λ c. header rc5 c s.cycle sent ++ rest) (sym same) in
            let stamp : from_le_bytes (slice (open_header rc5 k sink r datagram) 2 2) ≡ sent =
              ap (λ d. from_le_bytes (slice (open_header rc5 k sink r d) 2 2)) keyed
              ∙ ap (λ o. from_le_bytes (slice o 2 2))
                  (open_header-frame rc5 v sink r s.cycle sent rest)
              ∙ timestamp_word rc5 r.cipher s.cycle sent rest clock in
            let elapsed : 2048 < ((sent + age) % 2 ^ 16 + 2 ^ 16 - sent) % 2 ^ 16 = omega arith in
            handle_datagram-stale rc5 v sink r ((sent + age) % 2 ^ 16) datagram (rw stamp elapsed)
        | inr silent ↦
            absurd (cc (sym e ∙ poll_datagram-silent rc5 v source s sent ps lead carries silent))
      ]
