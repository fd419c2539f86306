-- ===== src/Proto/Link/Mirrored.antt =====
-- The copies of a datagram that has been taken, which mirroring sends by the other sockets.
use longboy.Prelude.{
  ℕ, ◌+◌, ◌-◌, ◌%◌, ◌^◌, ◌≤◌, ◌<◌, ◌≡◌, sym, ◌∙◌, ap, arith, Option, List, ◌++◌, length,
}
use longboy.Prelude.Slices.{slice}
use longboy.Prelude.Bytes.{from_le_bytes}
use longboy.Prelude.Modular.{mod_bound, mod_cases}
use longboy.Proto.Constants.{Constants, IsValid, datagram_size, max_cycle}
use longboy.Proto.Constants.Bounds.{ranges}
use longboy.Proto.Cipher.{Rc5}
use longboy.Proto.Sender.{Source, Sender}
use longboy.Proto.Sender.Frame.{header, body, length-header, length-frame}
use longboy.Proto.Sender.Refine.{Carries}
use longboy.Proto.Receiver.{Sink, Receiver, handle_datagram}
use longboy.Proto.Receiver.Invariant.{header_cycle}
use longboy.Proto.Receiver.Rejects.{handle_datagram-passed}
use longboy.Proto.Link.Frames.{AllShow, open_header-frame, cycle_word, frame_size}
use longboy.Proto.Link.Sends.{Sends, Sends-Held}
use longboy.Proto.Link.Burst.{InSync}

module _ (rc5 : Rc5) {k : Constants} (v : IsValid k) {K : Type 0} (sink : Sink K) where
  -- The cycle that a receiver reads in a frame.
  header_cycle-frame :
      (r : Receiver K) (d timestamp : ℕ) (rest : List ℕ)
      → d < 2 ^ 16
      → header_cycle rc5 v sink r (header rc5 r.cipher d timestamp ++ rest) ≡ d
  header_cycle-frame r d timestamp rest small =
      ap (λ b. from_le_bytes (slice b 0 2)) (open_header-frame rc5 v sink r d timestamp rest)
      ∙ cycle_word rc5 r.cipher d timestamp rest small

  module _ {S : Type 0} (source : Source k.size S) where
    pub copy_ignored :
        {s t : Sender S} {ins : List (Option (List ℕ))} {cycle timestamp : ℕ} {datagram : List ℕ}
        (r : Receiver K) (now : ℕ) (ps : List (Option (List ℕ))) (lead : List ℕ)
        → Carries rc5 k s ps lead
        → AllShow rc5 s.cipher k.size ps
        → Sends rc5 v source s ins t cycle timestamp datagram
        → 0 < length ins
        → length ins ≤ k.window_size
        → InSync rc5 k t r
        → (handle_datagram rc5 k sink r now datagram).0 ≡ r
    copy_ignored {s} {t} {ins} {cycle} {timestamp} {datagram} r now ps lead carries old sends pos hw
          sync =
        let h = Sends-Held rc5 v source ps lead carries old hw sends in
        let small : cycle < 2 ^ 16 =
          omega
            (arith, ranges v, h.last pos, mod_bound (s.cycle + (length ins - 1)) (max_cycle k)) in
        let same : s.cipher ≡ r.cipher = sym (sync.cipher ∙ h.cipher) in
        let frame : datagram
            ≡ header rc5 r.cipher cycle timestamp ++ body rc5 s.cipher k.size h.ps =
          h.sent pos
          ∙ ap (λ c. header rc5 c cycle timestamp ++ body rc5 s.cipher k.size h.ps) same in
        let back : cycle ≡ (r.cycle + max_cycle k - 1) % max_cycle k = omega (
          arith,
          ranges v,
          h.last pos,
          h.next,
          sync.cycle,
          mod_cases (s.cycle + (length ins - 1)) (max_cycle k)
              (omega (arith, ranges v, carries.in_ring)),
          mod_cases (s.cycle + length ins) (max_cycle k) (omega (arith, ranges v, carries.in_ring)),
          mod_cases (r.cycle + max_cycle k - 1) (max_cycle k)
              (omega (arith, ranges v, sync.clear.in_ring)),
        ) in
        handle_datagram-passed rc5 v sink r now 1 datagram
          (record { in_ring = sync.clear.in_ring; size = sync.clear.size }) (omega arith)
          (omega (arith, ranges v))
          (ap (header_cycle rc5 v sink r) frame
            ∙ header_cycle-frame r cycle timestamp (body rc5 s.cipher k.size h.ps) small
            ∙ back)

    pub Sends-size :
        {s t : Sender S} {ins : List (Option (List ℕ))} {cycle timestamp : ℕ} {datagram : List ℕ}
        (ps : List (Option (List ℕ))) (lead : List ℕ)
        → Carries rc5 k s ps lead
        → AllShow rc5 s.cipher k.size ps
        → Sends rc5 v source s ins t cycle timestamp datagram
        → 0 < length ins
        → length ins ≤ k.window_size
        → length datagram ≡ datagram_size k
    Sends-size {s} {cycle = cycle} {timestamp = timestamp} ps lead carries old sends pos hw =
        let h = Sends-Held rc5 v source ps lead carries old hw sends in
        ap length (h.sent pos)
        ∙ length-frame rc5 s.cipher k.size (header rc5 s.cipher cycle timestamp) h.ps
            (length-header rc5 s.cipher cycle timestamp) h.carries.sized
        ∙ frame_size rc5 v sink h.ps h.carries.window
