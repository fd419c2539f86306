-- ===== src/Client/FromServer/Laws.antt =====
-- The client's receive loop against the datagrams themselves: the one buffer that they all pass
-- through does not show.
use longboy.Prelude.{
  ℕ, ◌<◌, ◌≡◌, ◌≢◌, refl, ◌∙◌, arith, List, [], ◌∷◌, length, min, ◌==◌, ==_self, ==_ne,
  if◌then◌else◌, ℕ_discrete,
}
use longboy.Prelude.Slices.{slice, write, length-write, slice-write_self}
use longboy.Proto.Constants.{Constants, IsValid, datagram_size}
use longboy.Proto.Cipher.{Rc5}
use longboy.Proto.Receiver.{Sink, Receiver, handle_datagram}
use longboy.Proto.Receiver.Cycles.{InRange, IsWaiting}
use longboy.Proto.Receiver.Invariant.{handle_datagram_safe}
use longboy.Client.FromServer.{process_datagrams}

module _ (rc5 : Rc5) {k : Constants} (v : IsValid k) {K : Type 0} (sink : Sink K) where
  -- Each datagram of the right length is handled as it was sent; any other is ignored.
  abbrev pub handle_all : ℕ → List (List ℕ) → Receiver K → Receiver K
  handle_all timestamp [] r = r
  handle_all timestamp (bytes ∷ incoming) r =
      let handled =
        handle_all timestamp incoming (handle_datagram rc5 k sink r timestamp bytes).0 in
      let skipped = handle_all timestamp incoming r in
      if length bytes == datagram_size k then handled else skipped

  pub right_size :
      (bytes buffer : List ℕ)
      → length buffer ≡ 512
      → length bytes ≡ datagram_size k
      → (min (length bytes) (length buffer) ≡ datagram_size k)
        × (slice (write buffer 0 bytes) 0 (datagram_size k) ≡ bytes)
  right_size bytes buffer e h =
      let sized : datagram_size k < 420 = v.fits in
      (omega arith, slice-write_self buffer 0 (datagram_size k) bytes h (omega arith))

  pub wrong_size :
      (bytes buffer : List ℕ)
      → length buffer ≡ 512
      → length bytes ≢ datagram_size k
      → min (length bytes) (length buffer) ≢ datagram_size k
  wrong_size bytes buffer e h = let sized : datagram_size k < 420 = v.fits in λ q. h (omega arith)

  -- With the buffer of 512 bytes, whatever it held before, the client's receive loop handles each
  -- datagram that is exactly DATAGRAM_SIZE bytes long as it was sent, in the order of arrival,
  -- and ignores any other.
  pub process_datagrams-handle_all :
      (timestamp : ℕ) (incoming : List (List ℕ)) (buffer : List ℕ) (r : Receiver K)
      → length buffer ≡ 512
      → process_datagrams rc5 k sink timestamp incoming buffer r ≡ handle_all timestamp incoming r
  unfolding process_datagrams
  process_datagrams-handle_all timestamp [] buffer r e = refl
  process_datagrams-handle_all timestamp (bytes ∷ incoming) buffer r e =
      elim (ℕ_discrete (length bytes) (datagram_size k)) [
        | yes same ↦
            let (len, read) = right_size bytes buffer e same in
            rw (len, same, ==_self (datagram_size k), read)
              (process_datagrams-handle_all timestamp incoming _ _
                (length-write (write buffer 0 bytes) 0 _ ∙ length-write buffer 0 bytes ∙ e))
        | no other ↦
            rw (==_ne _ _ (wrong_size bytes buffer e other), ==_ne _ _ other)
              (process_datagrams-handle_all timestamp incoming _ r
                (length-write buffer 0 bytes ∙ e))
      ]

  handle_all-keeps :
      (timestamp : ℕ) (incoming : List (List ℕ)) (r : Receiver K)
      → InRange k r
      → IsWaiting k r
      → let r' = handle_all timestamp incoming r in InRange k r' × IsWaiting k r'
  handle_all-keeps timestamp [] r range waits = (range, waits)
  handle_all-keeps timestamp (bytes ∷ incoming) r range waits =
      elim (ℕ_discrete (length bytes) (datagram_size k)) [
        | yes same ↦
            let h = handle_datagram_safe rc5 v sink r timestamp bytes range waits same in
            rw (same, ==_self (datagram_size k))
              (handle_all-keeps timestamp incoming _ h.range h.waits)
        | no other ↦ rw (==_ne _ _ other) (handle_all-keeps timestamp incoming r range waits)
      ]

  -- Whatever datagrams arrive, of any length and content, a receiver that is in range and waits
  -- for a cycle that has not arrived is so again behind the client's receive loop.
  pub process_datagrams-keeps :
      (timestamp : ℕ) (incoming : List (List ℕ)) (buffer : List ℕ) (r : Receiver K)
      → length buffer ≡ 512
      → InRange k r
      → IsWaiting k r
      → let r' = process_datagrams rc5 k sink timestamp incoming buffer r in
        InRange k r' × IsWaiting k r'
  process_datagrams-keeps timestamp incoming buffer r e range waits =
      rw (process_datagrams-handle_all timestamp incoming buffer r e)
        (handle_all-keeps timestamp incoming r range waits)
