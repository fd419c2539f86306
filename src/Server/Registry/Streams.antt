-- ===== src/Server/Registry/Streams.antt =====
-- What a server's calls put on the channels of its tasks.
use mathlib.Core.Option.{some-injective}
use longboy.Prelude.{
  ℕ, ◌+◌, ◌<◌, ◌≡◌, ◌≢◌, refl, sym, ◌∙◌, ap, Bool, true, false, Option, none, some, inl, inr, List,
  [], ◌∷◌, ◌++◌, map, length, append_assoc, append-nil, Bool-cases, ℕ_discrete, ltb, ◌==◌, ==_self,
  ==_ne, if◌then◌else◌,
}
use longboy.Server.{ServerSessionEvent, connected, disconnected}
use longboy.Server.Registry.{Server, contains_key, remove_key, send_all, register, unregister}
use longboy.Server.Events.{Once}

-- Calls that do not panic, and register sessions that are not registered. The list is what they put
-- on each channel.
pub data Calls : Server → List ServerSessionEvent → Server → Type 0 where
  stop : {s : Server} → Calls s [] s
  registered :
      {s t u : Server} {events : List ServerSessionEvent} (session_id cipher_key : ℕ)
      → contains_key session_id s.sessions ≡ false
      → register s session_id cipher_key ≡ some t
      → Calls t events u
      → Calls s (connected session_id cipher_key ∷ events) u
  unregistered :
      {s t u : Server} {events : List ServerSessionEvent} (session_id : ℕ)
      → unregister s session_id ≡ some t
      → Calls t events u
      → Calls s (disconnected session_id ∷ events) u

-- The sessions that the server knows of.
abbrev pub known : Server → ℕ → Bool
known s id = contains_key id s.sessions

pub contains-remove :
    (id n : ℕ) (entries : List (ℕ × ℕ))
    → contains_key n (remove_key id entries) ≡ (if n == id then false else contains_key n entries)
unfolding contains_key remove_key
contains-remove id n [] = elim (Bool-cases (n == id)) [ inl e ↦ rw e | inr e ↦ rw e ]
contains-remove id n ((key, value) ∷ entries) = elim (ℕ_discrete id key) [
  | yes same ↦ elim (ℕ_discrete n id) [
    | yes here ↦ rw (← same, here, ==_self id) (contains-remove id id entries ∙ rw (==_self id))
    | no away ↦
        rw (← same, ==_self id, ==_ne n id away)
          (contains-remove id n entries ∙ rw (==_ne n id away))
  ]
  | no other ↦ elim (ℕ_discrete n key) [
    | yes here ↦
        let apart : n ≢ id = λ e. other (sym e ∙ here) in
        rw (==_ne id key other, here, ==_self key, ==_ne key id (λ e. other (sym e)))
    | no away ↦ rw (==_ne id key other, ==_ne n key away) (contains-remove id n entries)
  ]
]

pub contains-insert :
    (id key n : ℕ) (entries : List (ℕ × ℕ))
    → contains_key n ((id, key) ∷ remove_key id entries)
      ≡ (if n == id then true else contains_key n entries)
unfolding contains_key
contains-insert id key n entries = elim (ℕ_discrete n id) [
  | yes same ↦ rw (same, ==_self id)
  | no other ↦ rw (==_ne n id other) (contains-remove id n entries ∙ rw (==_ne n id other))
]

-- `Once` looks at the sessions known only.
Once-ext :
    (events : List ServerSessionEvent) (f g : ℕ → Bool)
    → ((n : ℕ) → f n ≡ g n)
    → Once f events
    → Once g events
Once-ext events f g h once =
    let same : f ≡ g = λ i n. h n i in longboy.Prelude.subst (λ e. Once e events) same once

pub register-some :
    (s t : Server) (id key : ℕ)
    → register s id key ≡ some t
    → (t.sessions ≡ (id, key) ∷ remove_key id s.sessions)
      × (t.session_senders ≡ send_all (connected id key) s.session_senders)
unfolding register
register-some s t id key e = elim (Bool-cases (ltb (length s.sessions) s.capacity)) [
  | inl room ↦
      let it = some-injective _ _ (let e' = rw room at e in e') in
      (ap (λ (r : Server). r.sessions) (sym it), ap (λ (r : Server). r.session_senders) (sym it))
  | inr full ↦ absurd (let e' = rw full at e in cc e')
]

pub unregister-some :
    (s t : Server) (id : ℕ)
    → unregister s id ≡ some t
    → (known s id ≡ true)
      × (t.sessions ≡ remove_key id s.sessions)
      × (t.session_senders ≡ send_all (disconnected id) s.session_senders)
unfolding unregister
unregister-some s t id e = elim (Bool-cases (known s id)) [
  | inl there ↦
      let it = some-injective _ _ (let e' = rw there at e in e') in
      (
        there,
        ap (λ (r : Server). r.sessions) (sym it),
        ap (λ (r : Server). r.session_senders) (sym it),
      )
  | inr away ↦ absurd (let e' = rw away at e in cc e')
]

pub send_all-append :
    (event : ServerSessionEvent) (events : List ServerSessionEvent)
    (channels : List (List ServerSessionEvent))
    → map (λ channel. channel ++ events) (send_all event channels)
      ≡ map (λ channel. channel ++ event ∷ events) channels
send_all-append event events [] = refl
send_all-append event events (channel ∷ channels) =
    ap (λ head. head ∷ map (λ c. c ++ events) (send_all event channels))
      (append_assoc channel (event ∷ []) events)
    ∙ ap (◌∷◌ (channel ++ event ∷ events)) (send_all-append event events channels)

append-nothing :
    (channels : List (List ServerSessionEvent)) → channels ≡ map (λ channel. channel ++ []) channels
append-nothing [] = refl
append-nothing (channel ∷ channels) =
    ap (λ head. head ∷ channels) (sym (append-nil channel))
    ∙ ap (◌∷◌ (channel ++ [])) (append-nothing channels)

-- As long as no session is registered twice: each channel is sent the same events in the order of
-- the calls, and among them a session is connected only when it is not known and disconnected
-- only when it is, which is what the tasks rely on.
pub Calls-Once :
    {s u : Server} {events : List ServerSessionEvent}
    → Calls s events u
    → Once (known s) events
      × (u.session_senders ≡ map (λ channel. channel ++ events) s.session_senders)
Calls-Once {s} stop = (tt, append-nothing s.session_senders)
Calls-Once {s} (registered {t = t} {events = events} id key fresh e calls) =
    let (now, sent) = register-some s t id key e in
    let (once, channels) = Calls-Once calls in
    (
      (
        fresh,
        Once-ext events (known t) _
            (λ n. ap (contains_key n) now ∙ contains-insert id key n s.sessions) once,
      ),
      channels
          ∙ ap (map (λ channel. channel ++ events)) sent
          ∙ send_all-append (connected id key) events s.session_senders,
    )
Calls-Once {s} (unregistered {t = t} {events = events} id e calls) =
    let (there, now, sent) = unregister-some s t id e in
    let (once, channels) = Calls-Once calls in
    (
      (
        there,
        Once-ext events (known t) _ (λ n. ap (contains_key n) now ∙ contains-remove id n s.sessions)
            once,
      ),
      channels
          ∙ ap (map (λ channel. channel ++ events)) sent
          ∙ send_all-append (disconnected id) events s.session_senders,
    )
