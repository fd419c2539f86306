-- ===== src/Server/Sessions.antt =====
-- A table of sessions behind a map from session ids to its indices, as both tasks keep it.
use mathlib.Core.Option.{some-injective}
use longboy.Prelude.{ℕ, ◌≡◌, ◌≢◌, sym, ◌∙◌, ap, none, some, inl, inr, ℕ_discrete}
use longboy.Server.{Arena}
use longboy.Server.Maps.{Map, insert, remove, insert-some, remove-some}

module _ {T : Type 0} (arena : Arena T) where
  -- Each id leads to a session that is there, and no two ids share one.
  pub record Indexed (sessions : arena.Table) (ids : Map) : Type 0 where
    pub found : (id i : ℕ) → ids id ≡ some i → (s : T) × (arena.get i sessions ≡ some s)
    pub distinct : (a b i : ℕ) → ids a ≡ some i → ids b ≡ some i → a ≡ b

  -- All sessions that are there satisfy `P`.
  abbrev pub Each : (T → Type 0) → arena.Table → Type 0
  Each P sessions = (i : ℕ) (s : T) → arena.get i sessions ≡ some s → P s

  module _ (s : T) (sessions : arena.Table) where
    abbrev new_index : ℕ
    new_index = (arena.insert s sessions).0

    unused : (t : T) × (arena.get new_index sessions ≡ some t) → ⊥
    unused (t, e) = cc (sym (arena.insert_fresh s sessions) ∙ e)

    pub get-insert :
        (i : ℕ) (t : T)
        → arena.get i sessions ≡ some t
        → arena.get i (arena.insert s sessions).1 ≡ some t
    get-insert i t e = elim (ℕ_discrete i new_index) [
      | yes same ↦ absurd (unused (t, ap (λ (n : ℕ). arena.get n sessions) (sym same) ∙ e))
      | no other ↦ arena.get-insert_ne s sessions i other ∙ e
    ]

    pub Indexed-insert :
        (ids : Map) (id : ℕ)
        → Indexed sessions ids
        → ids id ≡ none
        → Indexed (arena.insert s sessions).1 (insert id new_index ids)
    Indexed-insert ids id h fresh = record {
      found = λ a i e. elim (insert-some id new_index a i ids e) [
        | inl q ↦ (s, rw q.1 (arena.get-insert_self s sessions))
        | inr q ↦ let (t, there) = h.found a i q.1 in (t, get-insert i t there)
      ];
      distinct = λ a b i ea eb. elim (insert-some id new_index a i ids ea) [
        | inl qa ↦ elim (insert-some id new_index b i ids eb) [
          | inl qb ↦ qa.0 ∙ sym qb.0
          | inr qb ↦ absurd (unused (h.found b new_index (qb.1 ∙ ap some qa.1)))
        ]
        | inr qa ↦ elim (insert-some id new_index b i ids eb) [
          | inl qb ↦ absurd (unused (h.found a new_index (qa.1 ∙ ap some qb.1)))
          | inr qb ↦ h.distinct a b i qa.1 qb.1
        ]
      ];
    }

    pub Each-insert : (P : T → Type 0) → Each P sessions → P s → Each P (arena.insert s sessions).1
    Each-insert P h p i t e = elim (ℕ_discrete i new_index) [
      | yes same ↦
          let it : s ≡ t = some-injective _ _ (
            sym (arena.get-insert_self s sessions)
            ∙ ap (λ (n : ℕ). arena.get n (arena.insert s sessions).1) (sym same)
            ∙ e) in
          rw (← it) p
      | no other ↦ h i t (sym (arena.get-insert_ne s sessions i other) ∙ e)
    ]

  module _ (index : ℕ) (sessions : arena.Table) where
    module _ (old s : T) (there : arena.get index sessions ≡ some old) where
      pub Indexed-update :
          (ids : Map) → Indexed sessions ids → Indexed (arena.update index s sessions) ids
      Indexed-update ids h = record {
        found = λ a i e. elim (ℕ_discrete index i) [
          | yes same ↦ (s, rw (← same) (arena.get-update_self index old s sessions there))
          | no other ↦
              let (t, e') = h.found a i e in (t, arena.get-update_ne index i s sessions other ∙ e')
        ];
        distinct = h.distinct;
      }

      pub Each-update :
          (P : T → Type 0) → Each P sessions → P s → Each P (arena.update index s sessions)
      Each-update P h p i t e = elim (ℕ_discrete index i) [
        | yes same ↦
            let it : s ≡ t = some-injective _ _ (
              sym (arena.get-update_self index old s sessions there)
              ∙ ap (λ (n : ℕ). arena.get n (arena.update index s sessions)) same
              ∙ e) in
            rw (← it) p
        | no other ↦ h i t (sym (arena.get-update_ne index i s sessions other) ∙ e)
      ]

    pub Indexed-remove :
        (ids : Map) (id : ℕ)
        → Indexed sessions ids
        → ids id ≡ some index
        → Indexed (arena.remove index sessions).1 (remove id ids)
    Indexed-remove ids id h e = record {
      found = λ a i q.
          let (other, before) = remove-some id a i ids q in
          let (t, there) = h.found a i before in
          let apart : index ≢ i = λ same. other (h.distinct a id i before (e ∙ ap some same)) in
          (t, arena.get-remove_ne index i sessions apart ∙ there);
      distinct = λ a b i qa qb.
          h.distinct a b i (remove-some id a i ids qa).1 (remove-some id b i ids qb).1;
    }

    pub Each-remove : (P : T → Type 0) → Each P sessions → Each P (arena.remove index sessions).1
    Each-remove P h i t q = elim (ℕ_discrete index i) [
      | yes same ↦ absurd (
          cc (
            sym (arena.get-remove_self index sessions)
            ∙ ap (λ (j : ℕ). arena.get j (arena.remove index sessions).1) same
            ∙ q))
      | no other ↦ h i t (sym (arena.get-remove_ne index i sessions other) ∙ q)
    ]
