-- ===== src/Tests/Arenas.antt =====
-- An arena that is a list, for concrete runs.
use longboy.Prelude.{
  ℕ, zero, suc, ◌+◌, ◌<◌, ◌≡◌, ◌≢◌, refl, sym, ◌∙◌, ap, arith, Bool, true, false, Option, none,
  some, List, [], ◌∷◌, ◌++◌, length, get_or, set, get_or-set_ne, ==_self, ==_ne,
}
use longboy.Server.{Arena, Iter, member, IsOnce}

module _ {T : Type 0} where
  pub get-append_self :
      (s : List (Option T)) (t : T) → get_or (s ++ some t ∷ []) (length s) none ≡ some t
  get-append_self [] t = refl
  get-append_self (o ∷ s) t = get-append_self s t

  pub get-append_ne :
      (s : List (Option T)) (t : T) (i : ℕ)
      → i ≢ length s
      → get_or (s ++ some t ∷ []) i none ≡ get_or s i none
  get-append_ne [] t zero h = absurd (h refl)
  get-append_ne [] t (suc i) h = refl
  get-append_ne (o ∷ s) t zero h = refl
  get-append_ne (o ∷ s) t (suc i) h = get-append_ne s t i (λ e. h (ap suc e))

  pub get-past : (s : List (Option T)) → get_or s (length s) none ≡ none
  get-past [] = refl
  get-past (o ∷ s) = get-past s

  pub get-set_self :
      (i : ℕ) (old t : T) (s : List (Option T))
      → get_or s i none ≡ some old
      → get_or (set s i (some t)) i none ≡ some t
  get-set_self i old t [] e = absurd (cc e)
  get-set_self zero old t (o ∷ s) e = refl
  get-set_self (suc i) old t (o ∷ s) e = get-set_self i old t s e

  pub get-cleared : (i : ℕ) (s : List (Option T)) → get_or (set s i none) i none ≡ none
  get-cleared i [] = refl
  get-cleared zero (o ∷ s) = refl
  get-cleared (suc i) (o ∷ s) = get-cleared i s

  abbrev pub list_arena : Arena T
  list_arena = record {
    Table = List (Option T);
    empty = [];
    get = λ i s. get_or s i none;
    insert = λ t s. (length s, s ++ some t ∷ []);
    update = λ i t s. set s i (some t);
    remove = λ i s. (get_or s i none, set s i none);
    get-empty = λ i. refl;
    insert_fresh = λ t s. get-past s;
    get-insert_self = λ t s. get-append_self s t;
    get-insert_ne = λ t s i h. get-append_ne s t i h;
    get-update_self = get-set_self;
    get-update_ne = λ i j t s h. get_or-set_ne s i j (some t) none h;
    remove_lem = λ i s. refl;
    get-remove_ne = λ i j s h. get_or-set_ne s i j none none h;
    get-remove_self = get-cleared;
  }

  -- The places in use, counted from `n`.
  abbrev pub in_use : ℕ → List (Option T) → List ℕ
  in_use n [] = []
  in_use n (some t ∷ s) = n ∷ in_use (n + 1) s
  in_use n (none ∷ s) = in_use (n + 1) s

  in_use-below : (n i : ℕ) (s : List (Option T)) → i < n → member i (in_use n s) ≡ false
  in_use-below n i [] h = refl
  in_use-below n i (none ∷ s) h = in_use-below (n + 1) i s (omega arith)
  in_use-below n i (some t ∷ s) h =
      rw (==_ne n i (λ e. absurd (omega arith))) (in_use-below (n + 1) i s (omega arith))

  abbrev pub is_there : Option T → Bool
  is_there none = false
  is_there (some t) = true

  in_use-at :
      (n i : ℕ) (s : List (Option T)) → member (n + i) (in_use n s) ≡ is_there (get_or s i none)
  in_use-at n i [] = refl
  in_use-at n zero (none ∷ s) = in_use-below (n + 1) (n + 0) s (omega arith)
  in_use-at n zero (some t ∷ s) = let e : n + 0 ≡ n = omega arith in rw (e, ==_self n)
  in_use-at n (suc i) (none ∷ s) =
      let e : n + suc i ≡ n + 1 + i = omega arith in
      ap (λ (j : ℕ). member j (in_use (n + 1) s)) e ∙ in_use-at (n + 1) i s
  in_use-at n (suc i) (some t ∷ s) =
      let e : n + suc i ≡ n + 1 + i = omega arith in
      rw (==_ne n (n + suc i) (λ q. absurd (omega arith)))
        (ap (λ (j : ℕ). member j (in_use (n + 1) s)) e ∙ in_use-at (n + 1) i s)

  pub in_use-IsOnce : (n : ℕ) (s : List (Option T)) → IsOnce (in_use n s)
  in_use-IsOnce n [] = tt
  in_use-IsOnce n (none ∷ s) = in_use-IsOnce (n + 1) s
  in_use-IsOnce n (some t ∷ s) = (in_use-below (n + 1) n s (omega arith), in_use-IsOnce (n + 1) s)

  pub in_use_lem :
      (i : ℕ) (s : List (Option T)) → member i (in_use 0 s) ≡ is_there (get_or s i none)
  in_use_lem i s =
      let e : 0 + i ≡ i = omega arith in
      ap (λ (n : ℕ). member n (in_use 0 s)) (sym e) ∙ in_use-at 0 i s

  abbrev pub list_iter : Iter list_arena
  list_iter = record {
    indices = in_use 0;
    once = in_use-IsOnce 0;
    live = λ i t s e. in_use_lem i s ∙ ap is_there e;
    dead = λ i s e. in_use_lem i s ∙ ap is_there e;
  }
