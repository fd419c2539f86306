-- ===== src/Proto/Constants/Indices.antt =====
-- Slot numbers: a cycle's place in the datagram (`% WINDOW_SIZE`) and in the receiver's buffer
-- (`% MAX_BUFFERED`).
use longboy.Prelude.{
  ℕ, zero, suc, ap, ltb, ltb_of_le, if◌then◌else◌, ◌+◌, ◌-◌, ◌*◌, ◌/◌, ◌%◌, ◌≤◌, ◌<◌, ◌≡◌, ◌≢◌, inl,
  inr, arith, dec_lt, sym, ◌∙◌,
}
use longboy.Prelude.Modular.{mod_cases, mod_apart, mod_below}
use native.Mathlib.Nat.{
  mod-mod_of_dvd, dvd_of_mod-eq-zero, div-add-mod', mul-add-mod_self_right, mod-lt,
}
use longboy.Proto.Constants.{Constants, IsValid, u16_max, max_cycle, max_buffered}
use longboy.Proto.Constants.Bounds.{ranges, max_cycle-mod-window_size}

-- Wrapping the cycle does not disturb its place in the datagram.
pub source_index_wrap :
    (k : Constants) (n : ℕ) → n % max_cycle k % k.window_size ≡ n % k.window_size
source_index_wrap k n =
    mod-mod_of_dvd k.window_size n (dvd_of_mod-eq-zero k.window_size (max_cycle-mod-window_size k))

-- The last cycles before the end of a ring of `q` windows against the first ones, in a buffer of
-- two windows.
wrap_apart_odd : (p w e y : ℕ) → 0 < e → y + e < w → (p * (w * 2) + (w - e)) % (w * 2) ≢ y
wrap_apart_odd p w e y he h = omega (
  arith,
  mul-add-mod_self_right p (w * 2) (w - e),
  mod_below {n = w - e} {m = w * 2} (omega arith),
)

wrap_apart_even : (p w e y : ℕ) → 0 < e → y + e < w → (p * (w * 2) + (w * 2 - e)) % (w * 2) ≢ y
wrap_apart_even p w e y he h = omega (
  arith,
  mul-add-mod_self_right p (w * 2) (w * 2 - e),
  mod_below {n = w * 2 - e} {m = w * 2} (omega arith),
)

wrap_apart : (q w e y x : ℕ) → 0 < e → y + e < w → e ≤ q * w → x + e ≡ q * w → x % (w * 2) ≢ y
wrap_apart zero w e y x he h le hx = absurd (omega arith)
wrap_apart (suc zero) w e y x he h le hx =
    let form : x ≡ 0 * (w * 2) + (w - e) = omega arith in rw form (wrap_apart_odd 0 w e y he h)
wrap_apart (suc (suc q)) w e y x he h le hx = elim (dec_lt (q % 2) 1) [
  | yes even ↦
      let half : q ≡ q / 2 * 2 = omega arith in
      let form : x ≡ q / 2 * (w * 2) + (w * 2 - e) = omega (arith, ap (λ (t : ℕ). t * w) half) in
      rw form (wrap_apart_even (q / 2) w e y he h)
  | no odd ↦
      let half : q ≡ q / 2 * 2 + 1 = omega arith in
      let form : x ≡ (q / 2 + 1) * (w * 2) + (w - e) = omega (arith, ap (λ (t : ℕ). t * w) half) in
      rw form (wrap_apart_odd (q / 2 + 1) w e y he h)
]

-- A buffer of two windows, and the two ring sizes at which the buffer has 8 places.
two_windows_apart :
    (q w x n : ℕ)
    → x < q * w
    → 0 < n
    → n < w
    → w ≤ q * w
    → (x + n) % (q * w) % (w * 2) ≢ x % (w * 2)
two_windows_apart q w x n hx hn hw hq e = elim (mod_cases (x + n) (q * w) (omega arith)) [
  | inl a ↦ mod_apart x n (w * 2) hn (omega arith) (rw (← a.1) e)
  | inr a ↦
      let y = (x + n) % (q * w) in
      let small : y % (w * 2) ≡ y = mod_below {n = y} {m = w * 2} (omega (arith, a)) in
      wrap_apart q w (q * w - x) y x (omega arith) (omega (arith, a)) (omega arith) (omega arith)
        (sym e ∙ small)
]

ring_65534_apart : (x n : ℕ) → x < 65534 → 0 < n → n < 2 → (x + n) % 65534 % 8 ≢ x % 8
ring_65534_apart x n hx hn hw e = omega arith

ring_65535_apart : (x n : ℕ) → x < 65535 → 0 < n → n < 3 → (x + n) % 65535 % 8 ≢ x % 8
ring_65535_apart x n hx hn hw e = omega arith

one_turn : (w : ℕ) → 0 < w → w < 416 → w ≤ u16_max / w * w
one_turn w h s = omega (arith, div-add-mod' u16_max w, mod-lt u16_max {m = w} h)

apart :
    (w x n : ℕ)
    → 0 < w
    → w < 416
    → x < u16_max / w * w
    → 0 < n
    → n < w
    → (x + n) % (u16_max / w * w) % (if ltb w 4 then 8 else w * 2)
      ≢ x % (if ltb w 4 then 8 else w * 2)
apart zero x n h s hx hn hw = absurd (omega arith)
apart (suc zero) x n h s hx hn hw = absurd (omega arith)
apart (suc (suc zero)) x n h s hx hn hw = ring_65534_apart x n hx hn hw
apart (suc (suc (suc zero))) x n h s hx hn hw = ring_65535_apart x n hx hn hw
apart (suc (suc (suc (suc w)))) x n h s hx hn hw =
    let wide = suc (suc (suc (suc w))) in
    rw (ltb_of_le wide 4 (omega arith))
      (two_windows_apart (u16_max / wide) wide x n hx hn hw (one_turn wide (omega arith) s))

module _ {k : Constants} (v : IsValid k) where
  -- For constants that compile, with a SIZE of at least 1, two cycles of one window have different places in the datagram,
  -- also where the ring of cycles wraps between them.
  pub source_index_apart :
      (c a b : ℕ)
      → a < b
      → b < a + k.window_size
      → (c + a) % max_cycle k % k.window_size ≢ (c + b) % max_cycle k % k.window_size
  source_index_apart c a b h w e =
      mod_apart (c + a) (b - a) k.window_size (omega arith) (omega arith) same
    where
      same : (c + a + (b - a)) % k.window_size ≡ (c + a) % k.window_size
      same =
          let over : c + a + (b - a) ≡ c + b = omega arith in
          rw over (sym (source_index_wrap k (c + b)) ∙ sym e ∙ source_index_wrap k (c + a))

  -- For constants that compile, with a SIZE of at least 1, two cycles of one window have
  -- different places in the receiver's buffer, also where the ring of cycles wraps between them.
  pub destination_index_apart :
      (x n : ℕ)
      → x < max_cycle k
      → 0 < n
      → n < k.window_size
      → (x + n) % max_cycle k % max_buffered k ≢ x % max_buffered k
  unfolding max_buffered max_cycle
  destination_index_apart x n hx hn hw e =
      apart k.window_size x n v.window_pos (omega (arith, ranges v)) hx hn hw e
