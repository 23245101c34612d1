-- ===== src/HttpApi/Stream.antt =====
-- internal/httpapi/router.go, eventsHandler: the stream of a job's events.
pub mod Resumed
pub mod Delivery
use anchora.Prelude.{
  ℕ, zero, suc, String, Bool, true, false, ◌||◌, Option, none, some, List, [], ◌∷◌, ◌++◌, ◌==◌,
  if◌then◌else◌, Result, ok, err,
}
use anchora.Prelude.Int.{ℤ, pos, negsuc}
use anchora.Workflow.{Message}
use anchora.Store.Registry.{EventRow}
use anchora.Service.Program.{Program, done, ◌>>=◌}
use anchora.Service.Backend.{is_terminal_event, get_job, job_events}
use anchora.HttpApi.{Response, write_error}

-- The events that it writes, or the response instead of a stream.
pub data Streamed : Type 0 where
  refused : Response → Streamed
  sent : List EventRow → Streamed

-- The loop over one batch: `after` and `terminal` when it ends.
unfoldable pub last_seen : ℕ → List EventRow → ℕ
last_seen seen [] = seen
last_seen seen (e ∷ events) = last_seen e.id events

unfoldable pub ends_stream : List EventRow → Bool
unfolding is_terminal_event
ends_stream [] = false
ends_stream (e ∷ events) = is_terminal_event e.type || ends_stream events

-- The loop, for the number of ticks that come before the request's context ends.
unfoldable pub stream : String → ℕ → ℕ → Program (List EventRow)
unfolding last_seen ends_stream job_events
stream id zero seen = do
  polled ← job_events id seen
  elim polled [ err e ↦ done [] | ok batch ↦ done batch ]
stream id (suc ticks) seen = do
  polled ← job_events id seen
  elim polled [
    | err e ↦ done []
    | ok batch ↦
        if ends_stream batch
        then done batch
        else (stream id ticks (last_seen seen batch) >>= λ more. done (batch ++ more))
  ]

-- The header `Last-Event-ID`, by what `strconv.ParseInt` makes of it; none is an error.
unfoldable pub resume_after : (String → Option ℤ) → String → Option ℕ
resume_after parse_int header =
    if header == ""
    then some 0
    else elim (parse_int header) [ none ↦ none | some (pos n) ↦ some n | some (negsuc n) ↦ none ]

unfoldable pub events_handler : (String → Option ℤ) → String → Bool → String → ℕ → Program Streamed
unfolding get_job resume_after stream
events_handler parse_int id can_flush header ticks = do
  loaded ← get_job id
  elim loaded [
    | err e ↦ done (refused (write_error 500 (Message.error_text e)))
    | ok none ↦ done (refused (write_error 404 (Message.error_text "job not found")))
    | ok (some job) ↦
        if can_flush
        then elim (resume_after parse_int header) [
          | none ↦ done (refused (write_error 400 (Message.error_text "invalid Last-Event-ID")))
          | some seen ↦ stream id ticks seen >>= λ events. done (sent events)
        ]
        else done (refused (write_error 500 (Message.error_text "streaming unsupported")))
  ]
