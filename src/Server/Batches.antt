-- ===== src/Server/Batches.antt =====
-- A stream of session events as the polls of a task read it: in batches.
use longboy.Prelude.{ℕ, ◌≡◌, refl, Bool, List, [], ◌∷◌, ◌++◌, ◌∙◌}
use longboy.Server.{ServerSessionEvent, connected, disconnected}
use longboy.Server.Events.{Once, known_after}

-- Each session is connected when it is not known and disconnected when it is, from batch to batch.
abbrev pub OnceBatches : (ℕ → Bool) → List (List ServerSessionEvent) → Type 0
OnceBatches known [] = Unit {0}
OnceBatches known (batch ∷ batches) =
    Once known batch × OnceBatches (known_after known batch) batches

abbrev pub known_behind : (ℕ → Bool) → List (List ServerSessionEvent) → ℕ → Bool
known_behind known [] = known
known_behind known (batch ∷ batches) = known_behind (known_after known batch) batches

-- The stream that the batches are cut from, of which the rest is still in the channel.
abbrev pub stream :
    List (List ServerSessionEvent) → List ServerSessionEvent → List ServerSessionEvent
stream [] unread = unread
stream (batch ∷ batches) unread = batch ++ stream batches unread

Once-append :
    (events later : List ServerSessionEvent) (known : ℕ → Bool)
    → Once known (events ++ later)
    → Once known events × Once (known_after known events) later
Once-append [] later known once = (tt, once)
Once-append (connected id cipher_key ∷ events) later known once =
    let (a, b) = Once-append events later _ once.1 in ((once.0, a), b)
Once-append (disconnected id ∷ events) later known once =
    let (a, b) = Once-append events later _ once.1 in ((once.0, a), b)

known_after-append :
    (events later : List ServerSessionEvent) (known : ℕ → Bool)
    → known_after known (events ++ later) ≡ known_after (known_after known events) later
known_after-append [] later known = refl
known_after-append (connected id cipher_key ∷ events) later known =
    known_after-append events later _
known_after-append (disconnected id ∷ events) later known = known_after-append events later _

pub Once-batches :
    (batches : List (List ServerSessionEvent)) (unread : List ServerSessionEvent) (known : ℕ → Bool)
    → Once known (stream batches unread)
    → OnceBatches known batches
Once-batches [] unread known once = tt
Once-batches (batch ∷ batches) unread known once =
    let (now, later) = Once-append batch (stream batches unread) known once in
    (now, Once-batches batches unread (known_after known batch) later)

pub known_after-stream :
    (batches : List (List ServerSessionEvent)) (unread : List ServerSessionEvent) (known : ℕ → Bool)
    → known_after known (stream batches unread) ≡ known_after (known_behind known batches) unread
known_after-stream [] unread known = refl
known_after-stream (batch ∷ batches) unread known =
    known_after-append batch (stream batches unread) known
    ∙ known_after-stream batches unread (known_after known batch)
