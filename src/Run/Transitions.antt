-- ===== src/Run/Transitions.antt =====
-- The state machine of a run: its diagram as a relation, and what the table of transitions implies.
use minerva.Base.{length, List, [], ◌∷◌, ℕ, ◌+◌, ◌<◌, ◌≤◌, ◌≡◌, ◌↔◌, refl, true, [], arith, ◌⊎◌}
use minerva.Run.{
  RunState, queued, leased, running, completed, failed, cancelled, timed_out,
  is_valid_state_transition, is_terminal_state, get_valid_next_states,
}

infix 40 ◌⟶◌ ◌⟶*◌
-- The documented diagram.
pub data ◌⟶◌ : RunState → RunState → Type 0 where
  lease : queued ⟶ leased
  withdraw : queued ⟶ cancelled
  start : leased ⟶ running
  abandon : leased ⟶ failed
  revoke : leased ⟶ cancelled
  complete : running ⟶ completed
  break : running ⟶ failed
  cancel : running ⟶ cancelled
  expire : running ⟶ timed_out

pub data ◌⟶*◌ (s : RunState) : RunState → Type 0 where
  here : s ⟶* s
  next : {t u : RunState} → s ⟶* t → t ⟶ u → s ⟶* u

ruleset edges = (lease, withdraw, start, abandon, revoke, complete, break, cancel, expire)

allowed : (s t : RunState) → is_valid_state_transition s t ≡ true → s ⟶ t
unfolding is_valid_state_transition
allowed s t h = grind (arith, edges)

drawn : {s t : RunState} → s ⟶ t → is_valid_state_transition s t ≡ true
unfolding is_valid_state_transition
drawn lease = refl
drawn withdraw = refl
drawn start = refl
drawn abandon = refl
drawn revoke = refl
drawn complete = refl
drawn break = refl
drawn cancel = refl
drawn expire = refl

-- The check allows exactly the arrows of the documented diagram.
pub valid_iff_arrow : (s t : RunState) → (is_valid_state_transition s t ≡ true) ↔ (s ⟶ t)
valid_iff_arrow s t = (allowed s t, drawn)

-- A state is terminal exactly if the table lets nothing follow it.
pub terminal_iff : (s : RunState) → (is_terminal_state s ≡ true) ↔ (get_valid_next_states s ≡ [])
unfolding is_terminal_state get_valid_next_states
terminal_iff queued = (λ h. cc, λ h. cc)
terminal_iff leased = (λ h. cc, λ h. cc)
terminal_iff running = (λ h. cc, λ h. cc)
terminal_iff _ = (λ h. refl, λ h. refl)

-- How far along its life a run is.
stage : RunState → ℕ
stage queued = 0
stage leased = 1
stage running = 2
stage _ = 3

stage-⟶ : {s t : RunState} → s ⟶ t → stage s < stage t
unfolding stage
stage-⟶ lease = omega arith
stage-⟶ withdraw = omega arith
stage-⟶ start = omega arith
stage-⟶ abandon = omega arith
stage-⟶ revoke = omega arith
stage-⟶ complete = omega arith
stage-⟶ break = omega arith
stage-⟶ cancel = omega arith
stage-⟶ expire = omega arith

stage-⟶* : {s t : RunState} → s ⟶* t → stage s ≤ stage t
stage-⟶* here = omega arith
stage-⟶* (next p a) = omega (arith, stage-⟶* p, stage-⟶ a)

stage_bound : (t : RunState) → stage t ≤ 3
unfolding stage
stage_bound queued = omega arith
stage_bound leased = omega arith
stage_bound running = omega arith
stage_bound _ = omega arith

-- The states that a run takes one after the other, each allowed by the check.
abbrev pub IsLife : RunState → List RunState → Type 0
IsLife s [] = Unit
IsLife s (t ∷ ts) = (is_valid_state_transition s t ≡ true) × IsLife t ts

stage_life : (ts : List RunState) (s : RunState) → IsLife s ts → stage s + length ts ≤ 3
stage_life [] s h = omega (arith, stage_bound s)
stage_life (t ∷ ts) s h = omega (arith, stage_life ts t h.1, stage-⟶ (allowed s t h.0))

-- From any state, a run whose transitions the check allows takes at most three more states.
pub life_is_short : (s : RunState) (ts : List RunState) → IsLife s ts → length ts ≤ 3
life_is_short s ts h = omega (arith, stage_life ts s h)

pub no_return : {s t : RunState} → s ⟶ t → ¬ (t ⟶* s)
no_return a p = absurd (omega (arith, stage-⟶ a, stage-⟶* p))

-- A run that completes or times out was running just before.
pub finished_was_running :
    (s t : RunState)
    → is_valid_state_transition s t ≡ true
    → (t ≡ completed) ⊎ (t ≡ timed_out)
    → s ≡ running
unfolding is_valid_state_transition
finished_was_running s t h e = ground arith
