-- ===== src/Tools/Output.antt =====
-- services/orchestrator/src/tools/bash.ts: what a call of the tool `bash` returns and tells, against
-- a description of the chunks that it has taken.
use mathlib.Core.List.{append_assoc, append-nil}
use mathlib.Core.Logic.{◌⊎◌, inl, inr}
use minerva.Base.{
  ℕ, String, ◌≡◌, refl, sym, ap, ◌∙◌, true, false, Option, none, some, List, [], ◌∷◌, ◌++◌, or_else,
}
use minerva.Base.Integers.{ℤ}
use minerva.Exec.{pure, throw, ◌>>=◌}
use minerva.Tools.{
  ToolResult, ToolEvent, emit_update, stdout, stderr, Thrown, cancelled, create_error_result,
  Session, Act, end_with,
}
use minerva.Tools.Bash.{
  BashStart, BashToolResult, ExecutionChunk, out_chunk, err_chunk, exit_chunk, Chunks, done, throws,
  next, Output, collect, update, read_chunks,
}

pub data Ending : Type 0 where
  finished stopped : Ending
  failed : Thrown → Ending

-- The chunks before the first at which the signal is aborted.
unfoldable pub taken : Chunks → List ExecutionChunk
taken done = []
taken (throws error) = []
taken (next true chunk chunks) = []
taken (next false chunk chunks) = chunk ∷ taken chunks

unfoldable pub ending : Chunks → Ending
ending done = finished
ending (throws error) = failed error
ending (next true chunk chunks) = stopped
ending (next false chunk chunks) = ending chunks

unfoldable pub stdout_of : List ExecutionChunk → List String
stdout_of [] = []
stdout_of (out_chunk text ∷ chunks) = text ∷ stdout_of chunks
stdout_of (err_chunk text ∷ chunks) = stdout_of chunks
stdout_of (exit_chunk code ∷ chunks) = stdout_of chunks

unfoldable pub stderr_of : List ExecutionChunk → List String
stderr_of [] = []
stderr_of (out_chunk text ∷ chunks) = stderr_of chunks
stderr_of (err_chunk text ∷ chunks) = text ∷ stderr_of chunks
stderr_of (exit_chunk code ∷ chunks) = stderr_of chunks

-- The code of the last chunk that has one.
unfoldable pub last_exit : List ExecutionChunk → Option ℤ
last_exit [] = none
last_exit (out_chunk text ∷ chunks) = last_exit chunks
last_exit (err_chunk text ∷ chunks) = last_exit chunks
last_exit (exit_chunk code ∷ chunks) = some (or_else (last_exit chunks) code)

-- One update for each chunk of output.
unfoldable pub updates : {P A : Type 0} → String → List ExecutionChunk → List (ToolEvent P A)
updates id [] = []
updates id (out_chunk text ∷ chunks) = emit_update id "bash" stdout text ∷ updates id chunks
updates id (err_chunk text ∷ chunks) = emit_update id "bash" stderr text ∷ updates id chunks
updates id (exit_chunk code ∷ chunks) = updates id chunks

unfoldable pub collect_all : List ExecutionChunk → Output → Output
collect_all [] out = out
collect_all (chunk ∷ chunks) out = collect_all chunks (collect chunk out)

pub collect_all-stdout :
    (chunks : List ExecutionChunk) (out : Output)
    → (collect_all chunks out).stdout_chunks ≡ out.stdout_chunks ++ stdout_of chunks
unfolding collect_all collect stdout_of
collect_all-stdout [] out = sym (append-nil out.stdout_chunks)
collect_all-stdout (out_chunk text ∷ chunks) out =
    collect_all-stdout chunks (collect (out_chunk text) out)
    ∙ append_assoc out.stdout_chunks (text ∷ []) (stdout_of chunks)
collect_all-stdout (err_chunk text ∷ chunks) out =
    collect_all-stdout chunks (collect (err_chunk text) out)
collect_all-stdout (exit_chunk code ∷ chunks) out =
    collect_all-stdout chunks (collect (exit_chunk code) out)

pub collect_all-stderr :
    (chunks : List ExecutionChunk) (out : Output)
    → (collect_all chunks out).stderr_chunks ≡ out.stderr_chunks ++ stderr_of chunks
unfolding collect_all collect stderr_of
collect_all-stderr [] out = sym (append-nil out.stderr_chunks)
collect_all-stderr (err_chunk text ∷ chunks) out =
    collect_all-stderr chunks (collect (err_chunk text) out)
    ∙ append_assoc out.stderr_chunks (text ∷ []) (stderr_of chunks)
collect_all-stderr (out_chunk text ∷ chunks) out =
    collect_all-stderr chunks (collect (out_chunk text) out)
collect_all-stderr (exit_chunk code ∷ chunks) out =
    collect_all-stderr chunks (collect (exit_chunk code) out)

pub collect_all-exit :
    (chunks : List ExecutionChunk) (out : Output)
    → (collect_all chunks out).exit_code ≡ or_else (last_exit chunks) out.exit_code
unfolding collect_all collect last_exit
collect_all-exit [] out = refl
collect_all-exit (out_chunk text ∷ chunks) out =
    collect_all-exit chunks (collect (out_chunk text) out)
collect_all-exit (err_chunk text ∷ chunks) out =
    collect_all-exit chunks (collect (err_chunk text) out)
collect_all-exit (exit_chunk code ∷ chunks) out =
    collect_all-exit chunks (collect (exit_chunk code) out)

module _ {S : Type 0} (clock : ℕ → ℕ) (tool_call_id : String) (start_time : ℕ) where
  -- How the loop ends.
  abbrev pub wind_up :
      Ending → Output → Act S BashStart BashToolResult (Output ⊎ ToolResult BashToolResult)
  wind_up finished out = pure (inl out)
  wind_up (failed error) out = throw error
  wind_up stopped out = do
    error ←
        end_with clock tool_call_id "bash"
          (create_error_result cancelled "Command was cancelled" none) start_time
    pure (inr error)

  abbrev pub told :
      Session S BashStart BashToolResult
      → List (ToolEvent BashStart BashToolResult)
      → Session S BashStart BashToolResult
  told s events = record s { events = s.events ++ events }

  told-nil : (s : Session S BashStart BashToolResult) → s ≡ told s []
  told-nil s = ap (λ events. record s { events = events }) (sym (append-nil s.events))

  told-cons :
      (s : Session S BashStart BashToolResult) (event : ToolEvent BashStart BashToolResult)
      (events : List (ToolEvent BashStart BashToolResult))
      → told (told s (event ∷ [])) events ≡ told s (event ∷ events)
  told-cons s event events =
      ap (λ all. record s { events = all }) (append_assoc s.events (event ∷ []) events)

  pub read_chunks_lem :
      (chunks : Chunks) (out : Output) (s : Session S BashStart BashToolResult)
      → read_chunks clock tool_call_id start_time chunks out s
        ≡ wind_up
            (ending chunks)
            (collect_all (taken chunks) out)
            (told s (updates tool_call_id (taken chunks)))
  unfolding read_chunks ending taken collect_all updates update
  read_chunks_lem done out s = ap (pure (inl out)) (told-nil s)
  read_chunks_lem (throws error) out s = ap (throw error) (told-nil s)
  read_chunks_lem (next true chunk chunks) out s = ap (wind_up stopped out) (told-nil s)
  read_chunks_lem (next false (out_chunk text) chunks) out s =
      let event = emit_update tool_call_id "bash" stdout text in
      read_chunks_lem chunks (collect (out_chunk text) out) (told s (event ∷ []))
      ∙ ap (wind_up (ending chunks) (collect_all (taken chunks) (collect (out_chunk text) out)))
          (told-cons s event (updates tool_call_id (taken chunks)))
  read_chunks_lem (next false (err_chunk text) chunks) out s =
      let event = emit_update tool_call_id "bash" stderr text in
      read_chunks_lem chunks (collect (err_chunk text) out) (told s (event ∷ []))
      ∙ ap (wind_up (ending chunks) (collect_all (taken chunks) (collect (err_chunk text) out)))
          (told-cons s event (updates tool_call_id (taken chunks)))
  read_chunks_lem (next false (exit_chunk code) chunks) out s =
      read_chunks_lem chunks (collect (exit_chunk code) out) s
