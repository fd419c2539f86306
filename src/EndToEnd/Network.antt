-- ===== src/EndToEnd/Network.antt =====
-- What a network that loses nothing brings to a client of what the server's sending task
-- (crates/longboy/src/server/server_to_client_sender.rs) sends in a round.
use longboy.Prelude.{
  ℕ, ◌≡◌, ◌≢◌, refl, ◌∙◌, ap, arith, false, Option, none, some, List, [], ◌∷◌, ◌++◌, ◌==◌, ==_self,
  ==_of, ==_ne, if◌then◌else◌, ℕ_discrete,
}
use longboy.Proto.Constants.{Constants}
use longboy.Proto.Cipher.{Rc5}
use longboy.Proto.Sender.{Source, poll_datagram}
use longboy.Effects.{Mirroring, SocketAddr, Packet}
use longboy.Server.{Arena, member, IsOnce}
use longboy.Server.ToClients.{SenderSession}
use longboy.Server.ToClients.Rounds.{copies, owed, owed_all}

-- What the network brings to an address.
abbrev pub received : SocketAddr → List Packet → List (List ℕ)
received addr [] = []
received addr (p ∷ packets) =
    if p.to == addr then p.bytes ∷ received addr packets else received addr packets

received-append :
    (addr : SocketAddr) (ps qs : List Packet)
    → received addr (ps ++ qs) ≡ received addr ps ++ received addr qs
received-append addr [] qs = refl
received-append addr (p ∷ ps) qs = ground (arith, received-append addr ps qs)

received-copies :
    (addr : SocketAddr) (sockets : Mirroring → ℕ) (datagram : List ℕ)
    → received addr (copies sockets (some addr) (some datagram))
      ≡ datagram ∷ datagram ∷ datagram ∷ []
received-copies addr sockets datagram = rw (==_self addr)

received-elsewhere :
    (addr : SocketAddr) (sockets : Mirroring → ℕ) (to : Option SocketAddr)
    (datagram : Option (List ℕ))
    → to ≢ some addr
    → received addr (copies sockets to datagram) ≡ []
received-elsewhere addr sockets (some other) (some datagram) h =
    rw (==_ne other addr (λ e. h (ap some e)))
received-elsewhere addr sockets none (some datagram) h = refl
received-elsewhere addr sockets (some other) none h = refl
received-elsewhere addr sockets none none h = refl

module _ (rc5 : Rc5) (k : Constants) {S : Type 0} (source : Source k.size S)
    (arena : Arena (SenderSession S)) where
  -- Only the session at `index` is at the address.
  abbrev pub Alone : SocketAddr → ℕ → arena.Table → Type 0
  Alone addr index sessions =
      (i : ℕ) (other : SenderSession S)
      → i ≢ index
      → arena.get i sessions ≡ some other
      → other.socket_addr ≢ some addr

  module _ (timestamp : ℕ) (sockets : Mirroring → ℕ) (sessions : arena.Table) (addr : SocketAddr)
      (index : ℕ) (alone : Alone addr index sessions) where
    received-owed :
        (i : ℕ) (o : Option (SenderSession S))
        → arena.get i sessions ≡ o
        → i ≢ index
        → received addr (owed rc5 k source timestamp sockets o) ≡ []
    received-owed i none e other = refl
    received-owed i (some s) e other =
        received-elsewhere addr sockets s.socket_addr
          (poll_datagram rc5 k source s.sender timestamp).1 (alone i s other e)

    pub received-owed_all :
        (session : SenderSession S) (datagram : List ℕ) (indices : List ℕ)
        → arena.get index sessions ≡ some session
        → session.socket_addr ≡ some addr
        → (poll_datagram rc5 k source session.sender timestamp).1 ≡ some datagram
        → IsOnce indices
        → received addr (owed_all rc5 k source arena timestamp sockets sessions indices)
          ≡ (if member index indices then datagram ∷ datagram ∷ datagram ∷ [] else [])
    received-owed_all session datagram [] there at e once = refl
    received-owed_all session datagram (i ∷ indices) there at e once =
        let rest = received-owed_all session datagram indices there at e once.1 in
        received-append addr (owed rc5 k source timestamp sockets (arena.get i sessions)) _
        ∙ elim (ℕ_discrete i index) [
          | yes same ↦
              let once' : member index indices ≡ false = rw (← same) once.0 in
              let here : arena.get i sessions ≡ some session = rw same there in
              let rest' = rw once' at rest in
              rw (==_of i index same, here, at, e, rest', received-copies addr sockets datagram)
                refl
          | no other ↦
              rw (==_ne i index other, received-owed i (arena.get i sessions) refl other) rest
        ]
