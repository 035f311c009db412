-- ===== src/Model/Status.antt =====
-- The constants of the type `Status` of internal/model/model.go.
use the_score.Base.{String}

abbrev pub idle : String
idle = "idle"

abbrev pub working : String
working = "working"

abbrev pub blocked : String
blocked = "blocked"

abbrev pub reviewable : String
reviewable = "reviewable"

abbrev pub completed : String
completed = "completed"

abbrev pub failed : String
failed = "failed"

abbrev pub stopped : String
stopped = "stopped"

abbrev pub disconnected : String
disconnected = "disconnected"

abbrev pub unknown : String
unknown = "unknown"
