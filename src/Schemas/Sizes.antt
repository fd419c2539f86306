-- ===== src/Schemas/Sizes.antt =====
-- The two programs do not agree on the size of a datagram: each ignores all that the other sends.
use longboy.Prelude.{ℕ, ◌≡◌, ◌≢◌, refl, sym, ◌∙◌, arith, some, List, [], ◌∷◌, length, ==_ne}
use longboy.Prelude.Slices.{write, length-write}
use longboy.Proto.Constants.{Constants, IsValid, datagram_size}
use longboy.Proto.Cipher.{Rc5}
use longboy.Proto.Receiver.{Sink, Receiver}
use longboy.Effects.{SocketAddr}
use longboy.Client.FromServer.{process_datagrams}
use longboy.Client.FromServer.Laws.{handle_all, process_datagrams-handle_all, wrong_size}
use longboy.Server.{Arena}
use longboy.Server.FromClients.{
  ReceiverSession, ClientToServerReceiver, read_datagram, poll_for_client_datagrams,
}
use longboy.Schemas.{server_constants, client_constants}

-- All datagrams have the size of some other constants.
abbrev pub HaveSize : ℕ → List (List ℕ) → Type 0
HaveSize n [] = Unit {0}
HaveSize n (bytes ∷ incoming) = (length bytes ≡ n) × HaveSize n incoming

abbrev pub HaveSizes : ℕ → List (List ℕ × SocketAddr) → Type 0
HaveSizes n [] = Unit {0}
HaveSizes n ((bytes, addr) ∷ incoming) = (length bytes ≡ n) × HaveSizes n incoming

module _ (rc5 : Rc5) {k : Constants} (v : IsValid k) {K : Type 0} (sink : Sink K) (n : ℕ)
    (other : n ≢ datagram_size k) where
  handle_all-HaveSize :
      (timestamp : ℕ) (incoming : List (List ℕ)) (r : Receiver K)
      → HaveSize n incoming
      → handle_all rc5 v sink timestamp incoming r ≡ r
  handle_all-HaveSize timestamp [] r h = refl
  handle_all-HaveSize timestamp (bytes ∷ incoming) r h =
      rw (==_ne (length bytes) (datagram_size k) (λ e. other (sym h.0 ∙ e)))
        (handle_all-HaveSize timestamp incoming r h.1)

  pub client_ignores :
      (timestamp : ℕ) (incoming : List (List ℕ)) (buffer : List ℕ) (r : Receiver K)
      → length buffer ≡ 512
      → HaveSize n incoming
      → process_datagrams rc5 k sink timestamp incoming buffer r ≡ r
  client_ignores timestamp incoming buffer r size h =
      process_datagrams-handle_all rc5 v sink timestamp incoming buffer r size
      ∙ handle_all-HaveSize timestamp incoming r h

  module _ (arena : Arena (ReceiverSession K)) {F : Type 0} where
    pub server_ignores :
        (t : ClientToServerReceiver arena F) (timestamp : ℕ) (incoming : List (List ℕ × SocketAddr))
        (buffer : List ℕ)
        → length buffer ≡ 512
        → HaveSizes n incoming
        → poll_for_client_datagrams arena rc5 k sink t timestamp incoming buffer ≡ some t
    unfolding poll_for_client_datagrams read_datagram
    server_ignores t timestamp [] buffer size h = refl
    server_ignores t timestamp ((bytes, addr) ∷ incoming) buffer size h =
        let wrong = wrong_size rc5 v sink bytes buffer size (λ e. other (sym h.0 ∙ e)) in
        rw (poll_for_client_datagrams, read_datagram, ==_ne _ _ wrong)
          (server_ignores t timestamp incoming _
            (length-write (write buffer 0 bytes) 0 _ ∙ length-write buffer 0 bytes ∙ size) h.1)

server-IsValid : IsValid server_constants
unfolding datagram_size
server-IsValid = record { size_pos = omega arith; window_pos = omega arith; fits = omega arith }

client-IsValid : IsValid client_constants
unfolding datagram_size
client-IsValid = record { size_pos = omega arith; window_pos = omega arith; fits = omega arith }

sizes_apart : datagram_size server_constants ≢ datagram_size client_constants
unfolding datagram_size
sizes_apart e = absurd (omega arith)

-- At the sizes of the two programs: the client's receive loop leaves its receiver as it was on
-- any datagrams of the size that the server sends, and the server's receive loop leaves its task
-- as it was on any datagrams of the size that the client sends.
pub programs_mismatch :
    (rc5 : Rc5) {K L F : Type 0} (client_sink : Sink K) (server_sink : Sink L)
    (arena : Arena (ReceiverSession L)) (timestamp : ℕ) (from_server : List (List ℕ))
    (from_clients : List (List ℕ × SocketAddr)) (buffer : List ℕ) (r : Receiver K)
    (t : ClientToServerReceiver arena F)
    → length buffer ≡ 512
    → HaveSize (datagram_size server_constants) from_server
    → HaveSizes (datagram_size client_constants) from_clients
    → (process_datagrams rc5 client_constants client_sink timestamp from_server buffer r ≡ r)
      × (poll_for_client_datagrams arena rc5 server_constants server_sink t timestamp from_clients
            buffer
          ≡ some t)
programs_mismatch rc5 client_sink server_sink arena timestamp from_server from_clients buffer r t
      size h h' =
    (
      client_ignores rc5 client-IsValid client_sink (datagram_size server_constants) sizes_apart
          timestamp from_server buffer r size h,
      server_ignores rc5 server-IsValid server_sink (datagram_size client_constants)
          (λ e. sizes_apart (sym e)) arena t timestamp from_clients buffer size h',
    )
