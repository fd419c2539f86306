-- ===== src/Effects.antt =====
-- What the tasks do to the world outside: datagrams that they hand to a socket, and panics. The
-- sockets themselves are parameters. Covers crates/longboy/src/mirroring.rs and schema.rs.
use Prim.Native.String.{String}
use longboy.Prelude.{
  ℕ, ◌+◌, ◌%◌, ◌^◌, ◌≡◌, refl, arith, ◌<◌, ◌++◌, Bool, true, ◌&&◌, List, [], ◌∷◌, leb,
  if◌then◌else◌,
}

-- `enum Mirroring`.
pub data Mirroring : Type 0 where
  audio_video background voice : Mirroring

-- `Enum::into_usize`, `from_usize` and `LENGTH`: the variants are numbered as they are declared.
unfoldable pub into_usize : Mirroring → ℕ
into_usize audio_video = 0
into_usize background = 1
into_usize voice = 2

-- A socket address, which the program compares and passes on only.
abbrev pub SocketAddr : Type 0
SocketAddr = ℕ

pub record ClientToServerSchema : Type 0 where
  pub name : String
  pub mapper_port : ℕ
  pub heartbeat_period : ℕ
  pub port : ℕ

pub record ServerToClientSchema : Type 0 where
  pub name : String
  pub mapper_port : ℕ
  pub heartbeat_period : ℕ

-- A datagram on its way out: `socket.send_to(&bytes, to)`.
pub record Packet : Type 0 where
  pub socket : ℕ
  pub to : SocketAddr
  pub bytes : List ℕ

-- What a task is run with: whether `send_to` succeeds on a packet, and whether the build checks
-- arithmetic for overflow (debug builds do, release builds wrap).
pub record Env : Type 0 where
  pub send_to : Packet → Bool
  pub overflow_checks : Bool

-- A step either comes to its end, with the packets that it has sent, or panics.
pub data Outcome {ℓ} (A : Type ℓ) : Type ℓ where
  done : A → List Packet → Outcome A
  panic : Outcome A

-- The packets `ps` go out before those of a step.
abbrev pub after {ℓ} : {A : Type ℓ} → List Packet → Outcome A → Outcome A
after ps (done a qs) = done a (ps ++ qs)
after ps panic = panic

infixl 5 ◌>>=◌ ◌>>◌
abbrev pub ◌>>=◌ {ℓ κ} : {A : Type ℓ} {B : Type κ} → Outcome A → (A → Outcome B) → Outcome B
done a ps >>= f = after ps (f a)
panic >>= f = panic

abbrev pub ◌>>◌ {ℓ κ} : {A : Type ℓ} {B : Type κ} → Outcome A → Outcome B → Outcome B
m >> n = m >>= λ _. n

module _ (env : Env) where
  -- `socket.send_to(…).expect("send_to failure")`
  unfoldable pub send_to : Packet → Outcome (Unit {0})
  send_to p = if env.send_to p then done tt (p ∷ []) else panic

  unfoldable pub send_all : List Packet → Outcome (Unit {0})
  unfolding send_to
  send_all [] = done tt []
  send_all (p ∷ ps) = send_to p >> send_all ps

  -- `a + b` on `u16`.
  unfoldable pub add_u16 : ℕ → ℕ → Outcome ℕ
  add_u16 a b =
      if env.overflow_checks && leb (2 ^ 16) (a + b) then panic else done ((a + b) % 2 ^ 16) []

  -- The network takes every packet of the list.
  abbrev pub Takes : List Packet → Type 0
  Takes [] = Unit {0}
  Takes (p ∷ ps) = (env.send_to p ≡ true) × Takes ps

  pub send_all_lem : (ps : List Packet) → Takes ps → send_all ps ≡ done tt ps
  unfolding send_all
  send_all_lem [] h = refl
  send_all_lem (p ∷ ps) h = rw (h.0, send_all_lem ps h.1)

  pub add_u16_lem : (a b : ℕ) → a + b < 2 ^ 16 → add_u16 a b ≡ done (a + b) []
  unfolding add_u16
  add_u16_lem a b h = ground arith

  -- A network that takes everything.
  pub all_taken : ((p : Packet) → env.send_to p ≡ true) → (ps : List Packet) → Takes ps
  all_taken h [] = tt
  all_taken h (p ∷ ps) = (h p, all_taken h ps)
