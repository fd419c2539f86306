-- ===== src/Proto/Receiver/Arrived/Rounds.antt =====
-- What the rounds over a datagram add to the set.
use longboy.Prelude.{
  ℕ, zero, suc, ◌+◌, ◌-◌, ◌%◌, ◌≤◌, ◌<◌, ◌≡◌, ◌≢◌, refl, sym, ◌∙◌, ap, arith, Bool, true, false,
  ◌||◌, [], set, dec_lt, ℕ_discrete, lt→ltb, ltb_of_le,
}
use longboy.Proto.Constants.{Constants, IsValid, max_cycle, max_buffered}
use longboy.Proto.Receiver.{Receiver}
use longboy.Proto.Receiver.Arrived.{covers, with_cycles, news, Agrees, Agrees-same, Agrees-set}

covers-at : (i d : ℕ) → i ≤ d → (covers (i + 1) d (d - i) ≡ true) × (covers i d (d - i) ≡ false)
covers-at i d le = ground arith

covers-ne : (i d y : ℕ) → i ≤ d → d - i ≢ y → covers (i + 1) d y ≡ covers i d y
covers-ne i d y le ne = ground arith

or-true : (a : Bool) → (a || true) ≡ true
or-true true = refl
or-true false = refl

or-false : (a : Bool) → (a || false) ≡ a
or-false true = refl
or-false false = refl

pub with_cycles-zero : (arrived : ℕ → Bool) (d x : ℕ) → with_cycles 0 d arrived x ≡ arrived x
with_cycles-zero arrived d x =
    let nothing : covers 0 d x ≡ false = ground arith in rw nothing (or-false (arrived x))

module _ (arrived : ℕ → Bool) (i d : ℕ) where
  pub with_cycles-at :
      i ≤ d
      → (with_cycles (i + 1) d arrived (d - i) ≡ true)
        × (with_cycles i d arrived (d - i) ≡ arrived (d - i))
  with_cycles-at le =
      let (now, not_yet) = covers-at i d le in
      (rw now (or-true (arrived (d - i))), rw not_yet (or-false (arrived (d - i))))

  pub with_cycles-old : (x : ℕ) → x + i ≤ d → with_cycles i d arrived x ≡ arrived x
  with_cycles-old x old =
      let not_yet : covers i d x ≡ false = ground arith in rw not_yet (or-false (arrived x))

  with_cycles-ne :
      (y : ℕ) → i ≤ d → d - i ≢ y → with_cycles (i + 1) d arrived y ≡ with_cycles i d arrived y
  with_cycles-ne y le ne = ap (λ b. arrived y || b) (covers-ne i d y le ne)

  -- Where all older cycles have arrived, the older rounds bring nothing.
  pub with_cycles_done :
      (n : ℕ)
      → ((x : ℕ) → x + i ≤ d → arrived x ≡ true)
      → (x : ℕ) → with_cycles (i + n) d arrived x ≡ with_cycles i d arrived x
  with_cycles_done n old x = elim (dec_lt d (x + i)) [
    | yes h ↦ ap (λ b. arrived x || b) (ground arith)
    | no h ↦ rw (old x (omega arith)) refl
  ]

pub news_done :
    (n i d : ℕ) (arrived : ℕ → Bool)
    → ((x : ℕ) → x + i ≤ d → arrived x ≡ true)
    → news n i d arrived ≡ []
news_done zero i d arrived old = refl
news_done (suc n) i d arrived old = elim (dec_lt d i) [
  | yes h ↦ rw (lt→ltb d i h)
  | no h ↦
      rw (ltb_of_le d i (omega arith), old (d - i) (omega arith))
        (news_done n (i + 1) d arrived (λ x l. old x (omega arith)))
]

module _ {k : Constants} (v : IsValid k) {K : Type 0} (arrived : ℕ → Bool) (i d : ℕ) where
  -- A round on a cycle that had arrived, and on one that had not.
  pub old_round-Agrees :
      (r : Receiver K)
      → i ≤ d
      → arrived (d - i) ≡ true
      → Agrees k (with_cycles i d arrived) r
      → Agrees k (with_cycles (i + 1) d arrived) r
  old_round-Agrees r inside old h =
      let at = with_cycles-at arrived i d inside in
      Agrees-same (with_cycles i d arrived) (with_cycles (i + 1) d arrived) r
        (λ x. elim (ℕ_discrete (d - i) x) [
          | yes q ↦ rw (← q) (at.0 ∙ sym (at.1 ∙ old))
          | no ne ↦ with_cycles-ne arrived i d x inside ne
        ])
        h

  pub new_round-Agrees :
      (r : Receiver K) (sink : K)
      → i ≤ d
      → r.cycle + i ≤ d
      → d < r.cycle + max_buffered k
      → d + max_buffered k + 257 < max_cycle k
      → Agrees k (with_cycles i d arrived) r
      → Agrees k
          (with_cycles (i + 1) d arrived)
          (record r { sink = sink; flags = set r.flags ((d - i) % max_buffered k) true })
  new_round-Agrees r sink inside ahead room clear h =
      Agrees-set v (with_cycles i d arrived) (with_cycles (i + 1) d arrived) r sink (d - i) h
        (omega arith) (omega arith) (omega arith) (with_cycles-at arrived i d inside).0
        (λ y ne. with_cycles-ne arrived i d y inside ne)
