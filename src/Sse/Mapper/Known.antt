-- ===== src/Sse/Mapper/Known.antt =====
-- Which agent events become envelopes, and with what number.
use minerva.Base.{
  ℕ, ◌+◌, String, ◌≡◌, inl, inr, refl, Option, none, some, if◌then◌else◌, ◌==◌, eq_iff, arith,
  Bool-cases,
}
use minerva.Sse.{
  EventType, Payload, Envelope, name, agent_start, agent_end, turn_start, turn_end, message_start,
  message_update, message_end, tool_execution_start, tool_execution_update, tool_execution_end,
}
use minerva.Sse.Sequencer.{EventSequencer, next, current, current-next}
use minerva.Sse.Mapper.{AgentEvent, payload_of, wrap, map_event}

module _ {J : Type 0} where
  -- One case of the `switch`.
  case_step :
      (text : String) (known : EventType) (body : Payload J) (rest : Option (EventType × Payload J))
      {t : EventType} {p : Payload J}
      → (if text == name known then some (known, body) else rest) ≡ some (t, p)
      → (rest ≡ some (t, p) → name t ≡ text)
      → name t ≡ text
  case_step text known body rest h later = elim (Bool-cases (text == name known)) [
    | inl b ↦ ground (arith, h, b, eq_iff text (name known))
    | inr b ↦ later (rw b at h)
  ]

  -- The envelope's type is spelled as the event's.
  payload_name :
      (e : AgentEvent J) (t : EventType) (p : Payload J)
      → payload_of e ≡ some (t, p)
      → name t ≡ e.type
  unfolding payload_of name
  payload_name e t p h =
      (case_step e.type agent_start _ _ h λ h.
        (case_step e.type agent_end _ _ h λ h.
          (case_step e.type turn_start _ _ h λ h.
            (case_step e.type turn_end _ _ h λ h.
              (case_step e.type message_start _ _ h λ h.
                (case_step e.type message_update _ _ h λ h.
                  (case_step e.type message_end _ _ h λ h.
                    (case_step e.type tool_execution_start _ _ h λ h.
                      (case_step e.type tool_execution_update _ _ h
                        λ h. (case_step e.type tool_execution_end _ _ h λ h. cc))))))))))

  -- An agent event that becomes an envelope keeps its type and its run, and has the number after the
  -- run's current one, which goes up by one; the numbers of other runs stay.
  pub map_event_lem :
      (s : EventSequencer) (e : AgentEvent J) (r w : String) (now : ℕ) (env : Envelope J)
      → (map_event s e r now).1 ≡ some env
      → ((name env.type ≡ e.type) × (env.run_id ≡ r) × (env.seq ≡ current s r + 1) × (env.ts ≡ now))
        × (current (map_event s e r now).0 w ≡ (if r == w then current s r + 1 else current s w))
  unfolding map_event
  map_event_lem s e r w now env h = (known (payload_of e) refl env h, (current-next s r w).1)
    where
      known :
          (o : Option (EventType × Payload J))
          → payload_of e ≡ o
          → (env : Envelope J) → wrap r now (next s r).1 o ≡ some env
          → (name env.type ≡ e.type)
            × (env.run_id ≡ r)
            × (env.seq ≡ current s r + 1)
            × (env.ts ≡ now)
      known none p env h = cc
      known (some (t, body)) p env h =
          ground (arith, payload_name e t body p, (current-next s r r).0)
