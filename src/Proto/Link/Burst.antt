-- ===== src/Proto/Link/Burst.antt =====
-- Bursts: a sender polls on while its datagrams are lost, and then one gets through.
use longboy.Prelude.{
  ℕ, ◌+◌, ◌-◌, ◌%◌, ◌^◌, ◌≤◌, ◌<◌, ◌≡◌, sym, ◌∙◌, ap, arith, Option, List, ◌++◌, foldl, length,
}
use mathlib.Core.Path.{ap₂}
use longboy.Prelude.Modular.{mod_bound, mod_suc}
use longboy.Proto.Constants.{Constants, IsValid, max_cycle}
use longboy.Proto.Constants.Bounds.{ranges}
use longboy.Proto.Cipher.{Rc5, Cipher}
use longboy.Proto.Sender.{Source, Sender}
use longboy.Proto.Sender.Frame.{header, body}
use longboy.Proto.Sender.Refine.{Carries}
use longboy.Proto.Receiver.{Sink, Receiver, handle_datagram}
use longboy.Proto.Receiver.Slots.{give}
use longboy.Proto.Receiver.Recover.{IsClear}
use longboy.Proto.Link.Frames.{AllShow, newest, handle_datagram_recovers}
use longboy.Proto.Link.Window.{newest_suc}
use longboy.Proto.Link.Sends.{Sends, Sends-Held}

-- A sender and a receiver agree: same key, same cycle, and nothing is buffered.
pub record InSync (rc5 : Rc5) (k : Constants) {S K : Type 0} (s : Sender S) (r : Receiver K)
    : Type 0 where
  pub clear : IsClear k r
  pub cycle : r.cycle ≡ s.cycle
  pub cipher : r.cipher ≡ s.cipher

module _ (rc5 : Rc5) {k : Constants} (v : IsValid k) {S K : Type 0} (source : Source k.size S)
    (sink : Sink K) where
  -- A sender that carries any ring polls n times, each poll sends, n is at most a window and at
  -- most 257, and all datagrams but the last are lost. If that one arrives within 2048 ms and no
  -- ciphertext is all zeros, the receiver, in agreement before, hands over all n inputs from it
  -- alone, newest first, and is in agreement again.
  pub burst_recovered :
      {s t : Sender S} {ins : List (Option (List ℕ))} {cycle timestamp : ℕ} {datagram : List ℕ}
      (r : Receiver K) (now : ℕ) (ps : List (Option (List ℕ))) (lead : List ℕ)
      → Carries rc5 k s ps lead
      → InSync rc5 k s r
      → Sends rc5 v source s ins t cycle timestamp datagram
      → 0 < length ins
      → length ins ≤ k.window_size
      → length ins ≤ 257
      → now < 2 ^ 16
      → timestamp < 2 ^ 16
      → (now + 2 ^ 16 - timestamp) % 2 ^ 16 ≤ 2048
      → AllShow rc5 s.cipher k.size ps
      → AllShow rc5 s.cipher k.size ins
      → let r' = (handle_datagram rc5 k sink r now datagram).0 in
        InSync rc5 k t r' × (r'.sink ≡ foldl (give rc5 v sink) r.sink ins)
  burst_recovered {s} {t} {ins} {cycle} {timestamp} {datagram} r now ps lead carries sync sends pos
        hw small hn ht late old new =
      let h = Sends-Held rc5 v source ps lead carries old hw sends in
      let d = (r.cycle + (length ins - 1)) % max_cycle k in
      let now_at : cycle ≡ d =
        h.last pos ∙ ap (λ (c : ℕ). (c + (length ins - 1)) % max_cycle k) (sym sync.cycle) in
      let frame : datagram ≡ header rc5 r.cipher d timestamp ++ body rc5 r.cipher k.size h.ps =
        h.sent pos
        ∙ ap₂ (λ (c : Cipher) (m : ℕ). header rc5 c m timestamp ++ body rc5 c k.size h.ps)
            (sym sync.cipher) now_at in
      let whole : r.cycle + (length ins - 1) + 1 ≡ s.cycle + length ins =
        omega (arith, sync.cycle) in
      let onward : (d + 1) % max_cycle k ≡ t.cycle =
        mod_suc (r.cycle + (length ins - 1)) (max_cycle k)
        ∙ ap (λ (m : ℕ). m % max_cycle k) whole
        ∙ sym h.next in
      let look =
        sym (
          newest_suc v h.ps d (length ins) 0
            (mod_bound (r.cycle + (length ins - 1)) (max_cycle k) (omega (arith, ranges v)))
            (omega arith))
        ∙ ap (λ (c : ℕ). newest k h.ps c (length ins) 1) onward in
      let (a, b, c, g) =
        handle_datagram_recovers rc5 v sink r (length ins) now timestamp h.ps sync.clear pos hw
          small hn ht late h.carries.sized h.carries.window (rw sync.cipher (h.shows new)) in
      rw frame (
        record {
          clear = c;
          cycle = a ∙ ap (λ (m : ℕ). (m + length ins) % max_cycle k) sync.cycle ∙ sym h.next;
          cipher = b ∙ sync.cipher ∙ sym h.cipher;
        },
        g ∙ ap (foldl (give rc5 v sink) r.sink) (look ∙ h.held),
      )
