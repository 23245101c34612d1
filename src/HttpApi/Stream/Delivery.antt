-- ===== src/HttpApi/Stream/Delivery.antt =====
-- internal/httpapi/router.go, eventsHandler: which events reach a reader while the log grows.
use anchora.Prelude.{ℕ, String, Option, none, some, List, [], ◌∷◌, ok, if◌then◌else◌}
use anchora.Store.Registry.{Log, events}
use anchora.Service.Program.{Call, Response, Program, done, calls}
use anchora.HttpApi.Stream.{ends_stream}

-- What a poll of the log returns; the stream makes no other call.
abbrev pub poll : (c : Call) → Log → Option (Response c)
poll (Call.events id seen) log = some (ok (events id seen log))
poll c log = none

-- The program's polls are answered from these logs, one after the other.
abbrev pub polls : {A : Type 0} → List Log → Program A → Option A
polls logs (done a) = some a
polls [] (calls c next) = none
polls (log ∷ logs) (calls c next) = elim (poll c log) [
  | none ↦ none
  | some response ↦ polls logs (next response)
]

-- The log at which the stream stops: the first that has a terminal event past `seen`, or the last.
abbrev pub stop : String → ℕ → Log → List Log → Log
stop id seen log [] = log
stop id seen log (next ∷ logs) =
    let later = stop id seen next logs in if ends_stream (events id seen log) then log else later
