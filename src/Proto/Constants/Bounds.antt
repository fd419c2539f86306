-- ===== src/Proto/Constants/Bounds.antt =====
-- The ranges of the protocol's constants.
use longboy.Prelude.{◌+◌, ◌*◌, ◌/◌, ◌%◌, ◌≤◌, ◌<◌, ◌≡◌, arith}
use native.Mathlib.Nat.{div-add-mod', mod-lt, mul-mod_left}
use longboy.Proto.Constants.{Constants, IsValid, u16_max, datagram_size, max_cycle, max_buffered}

module _ {k : Constants} (v : IsValid k) where
  window_size-lt : k.window_size < 416
  unfolding datagram_size
  window_size-lt =
      let sized : 0 < k.size = v.size_pos in
      let fits : 2 * 2 + k.size * k.window_size < 420 = v.fits in grind arith

  max_buffered_range :
      (k.window_size < max_buffered k) × (8 ≤ max_buffered k) × (max_buffered k ≤ 830)
  unfolding max_buffered
  max_buffered_range = ground (arith, window_size-lt, v.window_pos)

  max_cycle_range : (65119 < max_cycle k) × (max_cycle k ≤ 65535)
  unfolding max_cycle
  max_cycle_range = omega (
    arith,
    div-add-mod' u16_max k.window_size,
    mod-lt u16_max {m = k.window_size} v.window_pos,
    window_size-lt,
  )

  -- For constants that compile, with a SIZE of at least 1: a window is shorter than the
  -- receiver's buffer, the buffer is short beside the ring of cycles, and every cycle fits in 16
  -- bits.
  pub ranges :
      (0 < k.window_size)
      × (k.window_size < 416)
      × (k.window_size < max_buffered k)
      × (8 ≤ max_buffered k)
      × (max_buffered k ≤ 830)
      × (65119 < max_cycle k)
      × (max_cycle k ≤ 65535)
  ranges = omega (arith, v.window_pos, window_size-lt, max_buffered_range, max_cycle_range)

-- The ring of cycles is a whole number of windows.
pub max_cycle-mod-window_size : (k : Constants) → max_cycle k % k.window_size ≡ 0
unfolding max_cycle
max_cycle-mod-window_size k = mul-mod_left (u16_max / k.window_size) k.window_size
