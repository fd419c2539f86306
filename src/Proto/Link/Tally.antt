-- ===== src/Proto/Link/Tally.antt =====
-- How often a datagram that arrives brings each cycle.
use longboy.Prelude.{
  ℕ, zero, suc, ◌+◌, ◌-◌, ◌≤◌, ◌<◌, ◌≡◌, ◌≢◌, refl, sym, ◌∙◌, arith, Bool, true, false, ◌&&◌, ◌||◌,
  List, [], ◌∷◌, ◌++◌, ltb, leb, ◌==◌, ==_self, ==_ne, ℕ_discrete, dec_lt, inl, inr, Bool-cases,
  if◌then◌else◌, lt→ltb, ltb_of_le,
}
use native.Mathlib.Nat.{zero-add}
use longboy.Proto.Receiver.Arrived.{covers, news}

-- How often a cycle is listed.
abbrev pub tally : ℕ → List ℕ → ℕ
tally x [] = 0
tally x (y ∷ ys) = (if x == y then 1 else 0) + tally x ys

pub tally-append : (x : ℕ) (ys zs : List ℕ) → tally x (ys ++ zs) ≡ tally x ys + tally x zs
tally-append x [] zs = omega arith
tally-append x (y ∷ ys) zs = omega (arith, tally-append x ys zs)

-- The cycle is one of the `n` from `d - i` back.
abbrev pub among : ℕ → ℕ → ℕ → ℕ → Bool
among n i d x = leb (x + i) d && ltb d (x + (i + n))

among_step : (n i d x : ℕ) → i ≤ d → d - i ≢ x → among (suc n) i d x ≡ among n (i + 1) d x
among_step n i d x le ne = ground arith

among_first :
    (n i d : ℕ) → i ≤ d → (among (suc n) i d (d - i) ≡ true) × (among n (i + 1) d (d - i) ≡ false)
among_first n i d le = ground arith

among_past : (n i d x : ℕ) → d < i → among n i d x ≡ false
among_past n i d x past = ground arith

among_none : (i d x : ℕ) → among 0 i d x ≡ false
among_none i d x = ground arith

pub if_none : (b : Bool) → ◌≡◌ {A = ℕ} 0 (if b then 0 else 0)
if_none true = refl
if_none false = refl

pub tally-news :
    (n i d x : ℕ) (arrived : ℕ → Bool)
    → tally x (news n i d arrived) ≡ (if arrived x then 0 else (if among n i d x then 1 else 0))
tally-news zero i d x arrived = rw (among_none i d x) (if_none (arrived x))
tally-news (suc n) i d x arrived = elim (dec_lt d i) [
  | yes past ↦ rw (lt→ltb d i past, among_past (suc n) i d x past) (if_none (arrived x))
  | no here ↦
      let inside : i ≤ d = omega arith in
      let rest = tally-news n (i + 1) d x arrived in
      let here_rest = tally-news n (i + 1) d (d - i) arrived in
      rw (ltb_of_le d i inside) (elim (ℕ_discrete (d - i) x) [
        | yes same ↦
            let (first, later) = among_first n i d inside in
            rw (← same) (elim (Bool-cases (arrived (d - i))) [
              | inl old ↦ let past = rw old at here_rest in rw old past
              | inr fresh ↦
                  let past = rw (fresh, later) at here_rest in
                  rw (fresh, ==_self (d - i), first) (omega (arith, past))
            ])
        | no ne ↦ rw (among_step n i d x inside ne) (elim (Bool-cases (arrived (d - i))) [
          | inl old ↦ rw old rest
          | inr fresh ↦
              rw (fresh, ==_ne x (d - i) (λ e. ne (sym e)))
                (zero-add (tally x (news n (i + 1) d arrived)) ∙ rest)
        ])
      ])
]

pub among_all : (n d x : ℕ) → among n 0 d x ≡ covers n d x
among_all n d x =
    let a : x + 0 ≡ x = omega arith in let b : 0 + n ≡ n = omega arith in rw (a, b) refl

pub first_or_later :
    (t u : ℕ) (p q r : Bool)
    → t ≡ (if p then 0 else (if q then 1 else 0))
    → u ≡ (if p || q then 0 else (if r then 1 else 0))
    → t + u ≡ (if p then 0 else (if q || r then 1 else 0))
first_or_later t u true q r a b = omega arith
first_or_later t u false true r a b = omega arith
first_or_later t u false false r a b = rw a (zero-add u ∙ b)
