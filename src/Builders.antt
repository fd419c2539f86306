-- ===== src/Builders.antt =====
-- What the builders of clients and servers share.
use longboy.Prelude.{
  ℕ, ◌+◌, ◌*◌, ◌≡◌, ◌≢◌, Option, none, some, Bool, true, false, List, [], ◌∷◌, ◌==◌, if◌then◌else◌,
}
use longboy.Effects.{Mirroring, audio_video, background, voice}

-- The errors that a builder returns.
pub data BuildError : Type 0 where
  reused_port : (port : ℕ) → BuildError
  wrong_port : (schema socket : ℕ) → BuildError
  socket_failure : BuildError

-- `FnvHashSet::insert` reports whether the port was there.
unfoldable pub contains : ℕ → List ℕ → Bool
contains port [] = false
contains port (p ∷ ports) = if port == p then true else contains port ports

-- `SocketAddr::from`, an address and a port as one number.
abbrev pub socket_addr : ℕ → ℕ → ℕ
socket_addr ip_addr port = ip_addr * 65536 + port

-- No port is used twice.
abbrev pub Distinct : List ℕ → Type 0
Distinct [] = Unit {0}
Distinct (p ∷ ports) = (contains p ports ≡ false) × Distinct ports

abbrev pub sockets_of : ℕ → ℕ → ℕ → Mirroring → ℕ
sockets_of a b c audio_video = a
sockets_of a b c background = b
sockets_of a b c voice = c

-- `UdpSocket::bind` on a port, or on any free one for the port 0: the socket, and the system behind
-- it. `none` is an error.
module _ {W : Type 0} (bind : W → ℕ → Option (ℕ × W)) where
  -- `enum_map!` on three free ports, one after the other.
  unfoldable pub bind_all : W → Option ((Mirroring → ℕ) × W)
  bind_all system = elim (bind system 0) [
    | none ↦ none
    | some a ↦ elim (bind a.1 0) [
      | none ↦ none
      | some b ↦ elim (bind b.1 0) [ none ↦ none | some c ↦ some (sockets_of a.0 b.0 c.0, c.1) ]
    ]
  ]

  -- A socket that is bound to a port has that port.
  abbrev pub IsBinding : (local_port : ℕ → ℕ) → Type 0
  IsBinding local_port =
      (system : W) (port : ℕ) (bound : ℕ × W)
      → port ≢ 0
      → bind system port ≡ some bound
      → port ≡ local_port bound.0
