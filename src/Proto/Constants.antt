-- ===== src/Proto/Constants.antt =====
-- crates/longboy/src/proto/constants.rs
pub mod Bounds
pub mod Indices
use longboy.Prelude.{ℕ, ◌+◌, ◌*◌, ◌/◌, ◌<◌, ltb, if◌then◌else◌}

-- The const generics `SIZE` and `WINDOW_SIZE`.
pub record Constants : Type 0 where
  pub size : ℕ
  pub window_size : ℕ

abbrev pub u16_max : ℕ
u16_max = 65535

unfoldable pub datagram_size : Constants → ℕ
datagram_size k = 2 * 2 + k.size * k.window_size

unfoldable pub max_cycle : Constants → ℕ
max_cycle k = u16_max / k.window_size * k.window_size

unfoldable pub max_buffered : Constants → ℕ
max_buffered k = if ltb k.window_size 4 then 8 else k.window_size * 2

-- What the compiler checks, which is that the constants do not divide by 0 and that `DATAGRAM_SIZE` is
-- within its bound, and a `SIZE` of at least 1, which it does not check: without it a window has no
-- bound.
pub record IsValid (k : Constants) : Type 0 where
  pub size_pos : 0 < k.size
  pub window_pos : 0 < k.window_size
  pub fits : datagram_size k < 420
