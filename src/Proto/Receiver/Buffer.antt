-- ===== src/Proto/Receiver/Buffer.antt =====
-- The receiver's flags as the set of cycles that have arrived ahead of the local cycle.
use longboy.Prelude.{
  ℕ, suc, ◌+◌, ◌-◌, ◌%◌, ◌≤◌, ◌<◌, ◌≡◌, ◌≢◌, sym, ◌∙◌, ap, arith, Bool, true, false, List, length,
  get_or, set, length-set, get_or-set_self, get_or-set_ne, ℕ_discrete, inl, inr, Bool-cases,
}
use longboy.Prelude.Modular.{mod_bound}
use native.Mathlib.Nat.{mod-add-mod}
use longboy.Proto.Constants.{Constants, IsValid, max_cycle, max_buffered}
use longboy.Proto.Constants.Bounds.{ranges}
use longboy.Proto.Constants.Indices.{destination_index_apart}

-- The place of the cycle that lies `j` after `c`.
abbrev pub place : Constants → ℕ → ℕ → ℕ
place k c j = (c + j) % max_cycle k % max_buffered k

-- Exactly the cycles from `lo` up to `hi` places after `c` are flagged.
pub record Marked (k : Constants) (c lo hi : ℕ) (flags : List Bool) : Type 0 where
  pub size : length flags ≡ max_buffered k
  pub inside : (j : ℕ) → lo ≤ j → j < hi → get_or flags (place k c j) false ≡ true
  pub only :
      (i : ℕ) → get_or flags i false ≡ true → (j : ℕ) × (lo ≤ j) × (j < hi) × (i ≡ place k c j)

module _ {k : Constants} (v : IsValid k) (c hi : ℕ) where
  place-lt : (j : ℕ) → place k c j < max_buffered k
  place-lt j = mod_bound _ _ (omega (arith, ranges v))

  place_apart : (a b : ℕ) → a < b → b < a + k.window_size → place k c a ≢ place k c b
  place_apart a b h w e =
      destination_index_apart v ((c + a) % max_cycle k) (b - a)
        (mod_bound _ _ (omega (arith, ranges v))) (omega arith) (omega arith)
        (let over : c + a + (b - a) ≡ c + b = omega arith in
          rw (mod-add-mod (c + a) (max_cycle k) (b - a), over) (sym e))

  -- The next older cycle is not flagged yet,
  pub unmarked :
      (lo : ℕ) {flags : List Bool}
      → hi ≤ lo + k.window_size
      → Marked k c (suc lo) hi flags
      → get_or flags (place k c lo) false ≡ false
  unmarked lo {flags} w m = elim (Bool-cases (get_or flags (place k c lo) false)) [
    | inl t ↦
        let (j, above, below, e) = m.only _ t in
        absurd (place_apart lo j (omega arith) (omega arith) e)
    | inr f ↦ f
  ]

  -- and flagging it extends the run downwards.
  pub mark :
      (lo : ℕ) {flags : List Bool}
      → lo < hi
      → Marked k c (suc lo) hi flags
      → Marked k c lo hi (set flags (place k c lo) true)
  mark lo {flags} h m = record {
    size = length-set flags here true ∙ m.size;
    inside = λ j a b. elim (ℕ_discrete here (place k c j)) [
      | yes e ↦ rw (← e) (get_or-set_self flags here true false there)
      | no ne ↦
          let other : lo ≢ j = λ e. ne (ap (place k c) e) in
          get_or-set_ne flags here (place k c j) true false ne ∙ m.inside j (omega arith) b
    ];
    only = λ i t. elim (ℕ_discrete here i) [
      | yes e ↦ (lo, omega arith, h, sym e)
      | no ne ↦
          let (j, a, b, e) = m.only i (sym (get_or-set_ne flags here i true false ne) ∙ t) in
          (j, omega arith, b, e)
    ];
  }
    where
      here : ℕ
      here = place k c lo

      there : here < length flags
      there = omega (arith, place-lt lo, m.size)

  -- Clearing the oldest flag shortens the run from below.
  pub unmark :
      (lo : ℕ) {flags : List Bool}
      → lo < hi
      → hi ≤ lo + k.window_size
      → Marked k c lo hi flags
      → Marked k c (suc lo) hi (set flags (place k c lo) false)
  unmark lo {flags} h w m = record {
    size = length-set flags here false ∙ m.size;
    inside = λ j a b.
        get_or-set_ne flags here (place k c j) false false (place_apart lo j a (omega arith))
        ∙ m.inside j (omega arith) b;
    only = λ i t. elim (ℕ_discrete here i) [
      | yes e ↦ absurd (let t' = rw (← e) at t in cc (get_or-set_self flags here false false there))
      | no ne ↦
          let (j, a, b, e) = m.only i (sym (get_or-set_ne flags here i false false ne) ∙ t) in
          let other : lo ≢ j = λ q. ne (ap (place k c) q ∙ sym e) in (j, omega arith, b, e)
    ];
  }
    where
      here : ℕ
      here = place k c lo

      there : here < length flags
      there = omega (arith, place-lt lo, m.size)

  -- An empty run: no flag at all is set.
  pub all_clear :
      (lo : ℕ) {flags : List Bool} (i : ℕ)
      → hi ≤ lo
      → Marked k c lo hi flags
      → get_or flags i false ≡ false
  all_clear lo {flags} i h m = elim (Bool-cases (get_or flags i false)) [
    | inl t ↦ let (j, a, b, e) = m.only i t in absurd (omega arith)
    | inr f ↦ f
  ]
