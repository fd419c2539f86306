-- ===== src/Proto/Receiver/Arrived.antt =====
-- The receiver against the plain set of the cycles that have arrived, before the cycle wraps.
pub mod Rounds
use longboy.Prelude.{
  ℕ, zero, suc, ◌+◌, ◌-◌, ◌%◌, ◌≤◌, ◌<◌, ◌≡◌, ◌≢◌, refl, sym, ◌∙◌, ap, arith, Bool, true, false,
  ◌&&◌, ◌||◌, List, [], ◌∷◌, length, get_or, set, length-set, get_or-set_self, get_or-set_ne, ltb,
  leb, dec_lt, ℕ_discrete, inl, inr, Bool-cases, if◌then◌else◌, lt→ltb, ltb_of_le,
}
use native.Mathlib.Nat.{add-mod_right}
use longboy.Prelude.Modular.{mod_bound, mod_below, mod_apart}
use longboy.Proto.Constants.{Constants, IsValid, max_cycle, max_buffered}
use longboy.Proto.Constants.Bounds.{ranges}
use longboy.Proto.Receiver.{Receiver, next_cycle, advance}

-- The `n` cycles up to `d`.
abbrev pub covers : ℕ → ℕ → ℕ → Bool
covers n d x = leb x d && ltb d (x + n)

-- With these cycles, too.
abbrev pub with_cycles : ℕ → ℕ → (ℕ → Bool) → ℕ → Bool
with_cycles n d arrived x = arrived x || covers n d x

-- Those among the `n` cycles from `d - i` back that have not arrived, the newest first.
abbrev pub news : ℕ → ℕ → ℕ → (ℕ → Bool) → List ℕ
news zero i d arrived = []
news (suc n) i d arrived =
    let rest = news n (i + 1) d arrived in
    if ltb d i then [] else (if arrived (d - i) then rest else (d - i) ∷ rest)

-- The receiver knows exactly what has arrived: all that lies before its cycle, what is flagged in
-- its buffer, and nothing beyond.
pub record Agrees (k : Constants) {K : Type 0} (arrived : ℕ → Bool) (r : Receiver K) : Type 0 where
  pub in_ring : r.cycle < max_cycle k
  pub size : length r.flags ≡ max_buffered k
  pub behind : (x : ℕ) → x < r.cycle → arrived x ≡ true
  pub buffered :
      (x : ℕ)
      → r.cycle ≤ x
      → x < r.cycle + max_buffered k
      → get_or r.flags (x % max_buffered k) false ≡ arrived x
  pub beyond : (x : ℕ) → r.cycle + max_buffered k ≤ x → arrived x ≡ false
  pub bound : (x : ℕ) → arrived x ≡ true → x + max_buffered k + 257 < max_cycle k

residue_apart : (c m x y : ℕ) → c ≤ x → x < c + m → c ≤ y → y < c + m → x ≢ y → x % m ≢ y % m
residue_apart c m x y cx xm cy ym ne e = elim (dec_lt x y) [
  | yes h ↦
      let up : x + (y - x) ≡ y = omega arith in
      mod_apart x (y - x) m (omega arith) (omega arith) (ap (λ (t : ℕ). t % m) up ∙ sym e)
  | no h ↦
      let up : y + (x - y) ≡ x = omega arith in
      let apart : y < x = omega (arith, ne) in
      mod_apart y (x - y) m (omega arith) (omega arith) (ap (λ (t : ℕ). t % m) up ∙ e)
]

module _ {k : Constants} {K : Type 0} where
  -- Only the contents of the set matter.
  pub Agrees-same :
      (arrived arrived' : ℕ → Bool) (r : Receiver K)
      → ((x : ℕ) → arrived' x ≡ arrived x)
      → Agrees k arrived r
      → Agrees k arrived' r
  Agrees-same arrived arrived' r same h = record {
    in_ring = h.in_ring;
    size = h.size;
    behind = λ x l. same x ∙ h.behind x l;
    buffered = λ x a b. h.buffered x a b ∙ sym (same x);
    beyond = λ x a. same x ∙ h.beyond x a;
    bound = λ x t. h.bound x (sym (same x) ∙ t);
  }

module _ {k : Constants} (v : IsValid k) {K : Type 0} where
  -- A cycle of the buffer is flagged.
  pub Agrees-set :
      (arrived arrived' : ℕ → Bool) (r : Receiver K) (sink : K) (x : ℕ)
      → Agrees k arrived r
      → r.cycle ≤ x
      → x < r.cycle + max_buffered k
      → x + max_buffered k + 257 < max_cycle k
      → arrived' x ≡ true
      → ((y : ℕ) → x ≢ y → arrived' y ≡ arrived y)
      → Agrees k arrived' (record r { sink = sink; flags = set r.flags (x % max_buffered k) true })
  Agrees-set arrived arrived' r sink x h cx xm room here same = record {
    in_ring = h.in_ring;
    size = length-set r.flags (x % max_buffered k) true ∙ h.size;
    behind = λ y l. same y (λ e. absurd (omega arith)) ∙ h.behind y l;
    buffered = λ y a b. elim (ℕ_discrete x y) [
      | yes e ↦ rw (← e) (
          get_or-set_self r.flags (x % max_buffered k) true false
            (omega (arith, h.size, mod_bound x (max_buffered k) (omega (arith, ranges v))))
          ∙ sym here)
      | no ne ↦
          get_or-set_ne r.flags (x % max_buffered k) (y % max_buffered k) true false
            (residue_apart r.cycle (max_buffered k) x y cx xm a b ne)
          ∙ h.buffered y a b
          ∙ sym (same y ne)
    ];
    beyond = λ y a. same y (λ e. absurd (omega arith)) ∙ h.beyond y a;
    bound = λ y t. elim (ℕ_discrete x y) [
      | yes e ↦ rw (← e) room
      | no ne ↦ h.bound y (sym (same y ne) ∙ t)
    ];
  }

  -- The loop that advances over the cycles that have arrived.
  next_cycle-Agrees :
      (arrived : ℕ → Bool) (r : Receiver K)
      → Agrees k arrived r
      → arrived r.cycle ≡ true
      → Agrees k arrived (next_cycle k r)
  unfolding next_cycle
  next_cycle-Agrees arrived r h here =
      let up : (r.cycle + 1) % max_cycle k ≡ r.cycle + 1 =
        mod_below (omega (arith, h.bound r.cycle here)) in
      rw up (record {
        in_ring = omega (arith, h.bound r.cycle here);
        size = length-set r.flags (r.cycle % max_buffered k) false ∙ h.size;
        behind = λ x l. elim (ℕ_discrete r.cycle x) [
          | yes e ↦ ap arrived (sym e) ∙ here
          | no ne ↦ h.behind x (omega arith)
        ];
        buffered = λ x a b. elim (ℕ_discrete (r.cycle + max_buffered k) x) [
          | yes e ↦
              let same : x % max_buffered k ≡ r.cycle % max_buffered k =
                ap (λ (t : ℕ). t % max_buffered k) (sym e)
                ∙ add-mod_right r.cycle (max_buffered k) in
              rw same (
                get_or-set_self r.flags (r.cycle % max_buffered k) false false (
                  omega
                    (arith, h.size, mod_bound r.cycle (max_buffered k) (omega (arith, ranges v))))
                ∙ sym (h.beyond x (omega arith)))
          | no ne ↦
              get_or-set_ne r.flags (r.cycle % max_buffered k) (x % max_buffered k) false false (
                residue_apart r.cycle (max_buffered k) r.cycle x (omega arith)
                  (omega (arith, ranges v)) (omega arith) (omega arith) (λ e. absurd (omega arith)))
              ∙ h.buffered x (omega arith) (omega arith)
        ];
        beyond = λ x a. h.beyond x (omega arith);
        bound = h.bound;
      })

  pub advance-Agrees :
      (arrived : ℕ → Bool) (fuel : ℕ) (r : Receiver K)
      → Agrees k arrived r
      → Agrees k arrived (advance k fuel r)
  unfolding advance
  advance-Agrees arrived zero r h = h
  advance-Agrees arrived (suc fuel) r h =
      elim (Bool-cases (get_or r.flags (r.cycle % max_buffered k) false)) [
        | inr e ↦ rw e h
        | inl e ↦
            let here : arrived r.cycle ≡ true =
              sym (h.buffered r.cycle (omega arith) (omega (arith, ranges v))) ∙ e in
            rw e (advance-Agrees arrived fuel (next_cycle k r) (next_cycle-Agrees arrived r h here))
      ]
