-- ===== src/Server/Maps.antt =====
-- Hash maps from numbers to indices, and `EnumMap<Mirroring, Option<SocketAddr>>`.
use mathlib.Core.Option.{some-injective}
use longboy.Prelude.{
  ℕ, ◌≡◌, ◌≢◌, refl, sym, Option, none, some, inl, inr, ◌⊎◌, ℕ_discrete, ◌==◌, ==_self, ==_ne,
  if◌then◌else◌,
}
use longboy.Effects.{Mirroring, audio_video, background, voice}

abbrev pub Map : Type 0
Map = ℕ → Option ℕ

abbrev pub insert : ℕ → ℕ → Map → Map
insert key value map k = if k == key then some value else map k

abbrev pub remove : ℕ → Map → Map
remove key map k = if k == key then none else map k

-- `for key in keys.flatten() { map.remove(key) }`, one key at a time.
abbrev pub forget : Map → Option ℕ → Map
forget map none = map
forget map (some key) = remove key map

-- Assignment to an entry.
abbrev pub assign {ℓ} : {A : Type ℓ} → (Mirroring → A) → Mirroring → A → Mirroring → A
assign f audio_video a audio_video = a
assign f background a background = a
assign f voice a voice = a
assign f m a n = f n

pub assign_self : {A : Type 0} (f : Mirroring → A) (m : Mirroring) (a : A) → assign f m a m ≡ a
assign_self f audio_video a = refl
assign_self f background a = refl
assign_self f voice a = refl

pub assign_ne :
    {A : Type 0} (f : Mirroring → A) (m n : Mirroring) (a : A) → (m ≡ n) ⊎ (assign f m a n ≡ f n)
assign_ne f audio_video audio_video a = inl refl
assign_ne f background background a = inl refl
assign_ne f voice voice a = inl refl
assign_ne f audio_video background a = inr refl
assign_ne f audio_video voice a = inr refl
assign_ne f background audio_video a = inr refl
assign_ne f background voice a = inr refl
assign_ne f voice audio_video a = inr refl
assign_ne f voice background a = inr refl

-- An entry behind an insertion is the new one or an old one of another key.
pub insert-some :
    (key value k v : ℕ) (map : Map)
    → insert key value map k ≡ some v
    → ((k ≡ key) × (v ≡ value)) ⊎ ((k ≢ key) × (map k ≡ some v))
insert-some key value k v map e = elim (ℕ_discrete k key) [
  | yes same ↦ inl (same, sym (some-injective _ _ (let e' = rw (same, ==_self key) at e in e')))
  | no other ↦ inr (other, rw (==_ne k key other) at e)
]

pub remove-some :
    (key k v : ℕ) (map : Map) → remove key map k ≡ some v → (k ≢ key) × (map k ≡ some v)
remove-some key k v map e = elim (ℕ_discrete k key) [
  | yes same ↦ absurd (let e' = rw (same, ==_self key) at e in cc e')
  | no other ↦ (other, rw (==_ne k key other) at e)
]

pub forget-some :
    (o : Option ℕ) (k v : ℕ) (map : Map) → forget map o k ≡ some v → (o ≢ some k) × (map k ≡ some v)
forget-some none k v map e = (λ q. cc q, e)
forget-some (some key) k v map e =
    let (other, old) = remove-some key k v map e in (λ q. other (sym (some-injective _ _ q)), old)
