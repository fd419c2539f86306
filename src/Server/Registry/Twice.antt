-- ===== src/Server/Registry/Twice.antt =====
-- `register` does not look whether the session is registered already; the tasks do, and panic.
use longboy.Prelude.{
  ℕ, ◌+◌, ◌≤◌, ◌<◌, ◌≡◌, refl, ◌∙◌, ap, arith, true, none, some, inl, inr, List, [], ◌∷◌, ◌++◌, map,
  length, Option-cases, Bool-cases, ltb, ◌==◌, ==_self,
}
use longboy.Proto.Constants.{Constants}
use longboy.Server.{connected, Factory, Arena}
use longboy.Server.FromClients.{
  ReceiverSession, ClientToServerReceiver, connect, handle_event, poll_server_session_events,
}
use longboy.Server.Registry.{Server, remove_key, register}
use longboy.Server.Registry.Streams.{register-some, send_all-append}

module _ (k : Constants) {K : Type 0} (arena : Arena (ReceiverSession K)) {F : Type 0}
    (factory : Factory F K) where
  connect-known :
      (t : ClientToServerReceiver arena F) (id key i : ℕ)
      → t.session_id_to_session_map id ≡ some i
      → connect arena k factory t id key ≡ none
  unfolding connect
  connect-known t id key i e = rw (connect, e)

  connect_twice :
      (t : ClientToServerReceiver arena F) (id a b : ℕ)
      → poll_server_session_events arena k factory t (connected id a ∷ connected id b ∷ []) ≡ none
  unfolding poll_server_session_events handle_event connect
  connect_twice t id a b = elim (Option-cases (t.session_id_to_session_map id)) [
    | inr known ↦ rw (poll_server_session_events, handle_event, connect, known.1)
    | inl unknown ↦ rw (poll_server_session_events, handle_event, connect, unknown, ==_self id)
  ]

  length-remove_key :
      (id : ℕ) (entries : List (ℕ × ℕ)) → length (remove_key id entries) ≤ length entries
  unfolding remove_key
  length-remove_key id [] = omega arith
  length-remove_key id ((key, value) ∷ entries) = elim (Bool-cases (id == key)) [
    | inl same ↦ rw same (omega (arith, length-remove_key id entries))
    | inr other ↦ rw other (omega (arith, length-remove_key id entries))
  ]

  register-room :
      (s : Server) (id key : ℕ)
      → length s.sessions < s.capacity
      → (t : Server) × (register s id key ≡ some t)
        × (t.capacity ≡ s.capacity)
        × (length t.sessions ≤ length s.sessions + 1)
  unfolding register
  register-room s id key room =
      let fits : ltb (length s.sessions) s.capacity ≡ true = ground arith in
      rw (register, fits) (_, refl, refl, omega (arith, length-remove_key id s.sessions))

  -- A server with room for two more sessions takes a session twice: both events are sent to each
  -- task, and a receiving task, in whatever state, panics on them.
  pub register_twice :
      (s : Server) (id a b : ℕ) (task : ClientToServerReceiver arena F)
      → length s.sessions + 1 < s.capacity
      → (t u : Server) × (register s id a ≡ some t)
        × (register t id b ≡ some u)
        × (u.session_senders
            ≡ map (λ channel. channel ++ connected id a ∷ connected id b ∷ []) s.session_senders)
        × (poll_server_session_events arena k factory task (connected id a ∷ connected id b ∷ [])
            ≡ none)
  register_twice s id a b task room =
      let (t, first, same, size) = register-room s id a (omega arith) in
      let (u, second, _, _) = register-room t id b (omega (arith, same, size)) in
      (
        t,
        u,
        first,
        second,
        ((register-some t u id b second).1
              ∙ ap (map (λ channel. channel ++ connected id b ∷ []))
                  (register-some s t id a first).1)
            ∙ send_all-append (connected id a) (connected id b ∷ []) s.session_senders,
        connect_twice task id a b,
      )
