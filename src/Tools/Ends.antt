-- ===== src/Tools/Ends.antt =====
-- services/orchestrator/src/tools/{bash,read,write}.ts: the end of a call, as the tools have it in
-- common.
use mathlib.Core.List.{append_assoc}
use minerva.Base.{
  ℕ, suc, String, ◌≡◌, refl, ◌∙◌, Bool, true, false, Option, List, [], ◌∷◌, ◌++◌, inl, inr, truthy,
  Option-cases,
}
use minerva.Base.Integers.{ℤ}
use minerva.Exec.{Result, ok, Result-cases, pure, ◌>>◌}
use minerva.Tools.{
  ToolContext, ToolResult, Shown, failure, outcome, ToolEvent, emit_start, emit_update, emit_end,
  Thrown, Session, create_success_result, create_error_result, workspace_of, end, refuse, fail,
  checked, Act,
}

-- The number of events of the end.
unfoldable pub ends : {P A : Type 0} → List (ToolEvent P A) → ℕ
ends [] = 0
ends (emit_start id name p ∷ events) = ends events
ends (emit_update id name type text ∷ events) = ends events
ends (emit_end id name shown is_error duration ∷ events) = suc (ends events)

-- How the event of the end shows a result, and whether as an error: an error as it is, and what a
-- call gave with a flag of the tool's choice.
pub data Shows {A : Type 0} : ToolResult A → Shown A → Bool → Type 0 where
  error_shown : (r : ToolResult A) → r.success ≡ false → Shows r (failure r) true
  outcome_shown : (a : A) (is_error : Bool) → Shows (create_success_result a) (outcome a) is_error

-- The call returns, and has emitted one event of the end, after all others, that shows its result.
pub record Closes {S P A : Type 0} (id name : String) (events : List (ToolEvent P A))
    (answer : Result Thrown (ToolResult A) × Session S P A) : Type 0 where
  pub result : ToolResult A
  pub shown : Shown A
  pub is_error : Bool
  pub duration : ℤ
  pub others : List (ToolEvent P A)
  pub returns : answer.0 ≡ ok result
  pub emits : answer.1.events ≡ events ++ (others ++ emit_end id name shown is_error duration ∷ [])
  pub once : ends others ≡ 0
  pub shows : Shows result shown is_error

module _ {S P A : Type 0} (clock : ℕ → ℕ) (id name : String) where
  pub refuse-Closes :
      (message : String) (start_time : ℕ) (s : Session S P A)
      → Closes id name s.events (refuse clock id name message start_time s)
  unfolding refuse create_error_result ends
  refuse-Closes message start_time s = record {
    result = _;
    shown = _;
    is_error = _;
    duration = _;
    others = [];
    returns = refl;
    emits = refl;
    once = refl;
    shows = error_shown _ refl;
  }

  pub fail-Closes :
      (thrown : Thrown) (start_time : ℕ) (s : Session S P A)
      → Closes id name s.events (fail clock id name thrown start_time s)
  unfolding fail create_error_result ends
  fail-Closes thrown start_time s = record {
    result = _;
    shown = _;
    is_error = _;
    duration = _;
    others = [];
    returns = refl;
    emits = refl;
    once = refl;
    shows = error_shown _ refl;
  }

  pub done-Closes :
      (a : A) (is_error : Bool) (start_time : ℕ) (s : Session S P A)
      → Closes id name s.events
          ((do end clock id name (outcome a) is_error start_time; pure (create_success_result a)) s)
  unfolding ends
  done-Closes a is_error start_time s = record {
    result = _;
    shown = _;
    is_error = _;
    duration = _;
    others = [];
    returns = refl;
    emits = refl;
    once = refl;
    shows = outcome_shown a is_error;
  }

  -- A call that has emitted an event of its start before.
  pub started-Closes :
      (p : P) (events : List (ToolEvent P A))
      (answer : Result Thrown (ToolResult A) × Session S P A)
      → Closes id name (events ++ emit_start id name p ∷ []) answer
      → Closes id name events answer
  unfolding ends
  started-Closes p events answer h = record {
    result = h.result;
    shown = h.shown;
    is_error = h.is_error;
    duration = h.duration;
    returns = h.returns;
    shows = h.shows;
    others = emit_start id name p ∷ h.others;
    emits =
        h.emits
        ∙ append_assoc events (emit_start id name p ∷ [])
            (h.others ++ emit_end id name h.shown h.is_error h.duration ∷ []);
    once = h.once;
  }

module _ {S P A Params : Type 0} (clock : ℕ → ℕ) (id name : String)
    (required : Params → Option String) (message_if_missing : String)
    (run : String → String → Params → ℕ → Act S P A (ToolResult A))
    (run-Closes : (workspace_id value : String) (parsed : Params) (start_time : ℕ)
        (s : Session S P A)
      → Closes id name s.events (run workspace_id value parsed start_time s)) where
  pub checked-Closes :
      (params : Result String Params) (context : Option ToolContext) (s : Session S P A)
      → Closes id name s.events
          (checked clock id name required message_if_missing run params context s)
  unfolding checked
  checked-Closes params context s = elim (Option-cases (workspace_of context)) [
    | inl e ↦ rw e (refuse-Closes clock id name _ (clock s.reads) _)
    | inr (w, e) ↦ rw e (elim (Result-cases params) [
      | inr (message, f) ↦ rw f (refuse-Closes clock id name message (clock s.reads) _)
      | inl (parsed, f) ↦ rw f (elim (Option-cases (truthy (required parsed))) [
        | inl g ↦ rw g (refuse-Closes clock id name _ (clock s.reads) _)
        | inr (value, g) ↦ rw g (run-Closes w value parsed (clock s.reads) _)
      ])
    ])
  ]
