-- ===== src/Server/Events.antt =====
-- Streams of session events that the tasks can follow.
use longboy.Prelude.{
  ℕ, ◌≡◌, refl, Bool, true, false, Option, none, some, List, [], ◌∷◌, ℕ_discrete, ◌==◌, ==_self,
  ==_ne, if◌then◌else◌,
}
use longboy.Server.{ServerSessionEvent, connected, disconnected}
use longboy.Server.Maps.{Map, insert, remove}

-- A step comes to its end, in a state that satisfies `P`.
abbrev pub Ends : {A : Type 0} → (A → Type 0) → Option A → Type 0
Ends {A} P o = (a : A) × (o ≡ some a) × P a

-- Sessions are connected when they are not known, and disconnected when they are.
abbrev pub Once : (ℕ → Bool) → List ServerSessionEvent → Type 0
Once known [] = Unit {0}
Once known (connected id cipher_key ∷ events) =
    (known id ≡ false) × Once (λ n. if n == id then true else known n) events
Once known (disconnected id ∷ events) =
    (known id ≡ true) × Once (λ n. if n == id then false else known n) events

abbrev pub has : Option ℕ → Bool
has none = false
has (some i) = true

-- The map holds the known sessions.
abbrev pub Holds : (ℕ → Bool) → Map → Type 0
Holds known map = (id : ℕ) → has (map id) ≡ known id

pub has-insert :
    (known : ℕ → Bool) (map : Map) (id index : ℕ)
    → Holds known map
    → Holds (λ n. if n == id then true else known n) (insert id index map)
has-insert known map id index h n = elim (ℕ_discrete n id) [
  | yes same ↦ rw (same, ==_self id)
  | no other ↦ rw (==_ne n id other) (h n)
]

pub has-remove :
    (known : ℕ → Bool) (map : Map) (id : ℕ)
    → Holds known map
    → Holds (λ n. if n == id then false else known n) (remove id map)
has-remove known map id h n = elim (ℕ_discrete n id) [
  | yes same ↦ rw (same, ==_self id)
  | no other ↦ rw (==_ne n id other) (h n)
]

pub absent : (o : Option ℕ) → has o ≡ false → o ≡ none
absent none e = refl
absent (some i) e = absurd (cc e)

pub there : (o : Option ℕ) → has o ≡ true → (i : ℕ) × (o ≡ some i)
there none e = absurd (cc e)
there (some i) e = (i, refl)

-- The sessions that are known behind the events.
abbrev pub known_after : (ℕ → Bool) → List ServerSessionEvent → ℕ → Bool
known_after known [] = known
known_after known (connected id cipher_key ∷ events) =
    known_after (λ n. if n == id then true else known n) events
known_after known (disconnected id ∷ events) =
    known_after (λ n. if n == id then false else known n) events
