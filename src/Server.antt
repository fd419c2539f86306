-- ===== src/Server.antt =====
-- crates/longboy/src/server: the tasks that a server runs for all its sessions, with
-- server_session_event.rs and factory.rs.
pub mod Maps
pub mod Events
pub mod Batches
pub mod Sessions
pub mod ToClients
pub mod FromClients
pub mod Registry
pub mod Builder
use longboy.Prelude.{
  ℕ, Bool, true, false, ◌≡◌, ◌≢◌, Option, none, some, List, [], ◌∷◌, ◌==◌, if◌then◌else◌,
}

-- `enum ServerSessionEvent`.
pub data ServerSessionEvent : Type 0 where
  connected : (session_id cipher_key : ℕ) → ServerSessionEvent
  disconnected : (session_id : ℕ) → ServerSessionEvent

-- `trait Factory`.
pub record Factory (F T : Type 0) : Type 0 where
  pub invoke : F → ℕ → T × F

-- `Arena<T>` of the `thunderdome` crate, its indices as numbers. What the crate documents: the index
-- that `insert` returns was not in use, and each operation concerns the entry at its index only.
pub record Arena (T : Type 0) : Type 1 where
  pub Table : Type 0
  pub empty : Table
  pub get : ℕ → Table → Option T
  pub insert : T → Table → ℕ × Table
  pub update : ℕ → T → Table → Table
  pub remove : ℕ → Table → Option T × Table
  pub get-empty : (i : ℕ) → get i empty ≡ none
  pub insert_fresh : (t : T) (s : Table) → get (insert t s).0 s ≡ none
  pub get-insert_self : (t : T) (s : Table) → get (insert t s).0 (insert t s).1 ≡ some t
  pub get-insert_ne :
      (t : T) (s : Table) (i : ℕ) → i ≢ (insert t s).0 → get i (insert t s).1 ≡ get i s
  pub get-update_self :
      (i : ℕ) (old t : T) (s : Table) → get i s ≡ some old → get i (update i t s) ≡ some t
  pub get-update_ne : (i j : ℕ) (t : T) (s : Table) → i ≢ j → get j (update i t s) ≡ get j s
  pub remove_lem : (i : ℕ) (s : Table) → (remove i s).0 ≡ get i s
  pub get-remove_ne : (i j : ℕ) (s : Table) → i ≢ j → get j (remove i s).1 ≡ get j s
  pub get-remove_self : (i : ℕ) (s : Table) → get i (remove i s).1 ≡ none

abbrev pub member : ℕ → List ℕ → Bool
member i [] = false
member i (x ∷ xs) = if x == i then true else member i xs

-- No index is listed twice.
abbrev pub IsOnce : List ℕ → Type 0
IsOnce [] = Unit {0}
IsOnce (x ∷ xs) = (member x xs ≡ false) × IsOnce xs

-- `Arena::iter_mut`, as the indices that it visits: each that is in use, once, and no other.
pub record Iter {T : Type 0} (arena : Arena T) : Type 0 where
  pub indices : arena.Table → List ℕ
  pub once : (s : arena.Table) → IsOnce (indices s)
  pub live :
      (i : ℕ) (t : T) (s : arena.Table) → arena.get i s ≡ some t → member i (indices s) ≡ true
  pub dead : (i : ℕ) (s : arena.Table) → arena.get i s ≡ none → member i (indices s) ≡ false
