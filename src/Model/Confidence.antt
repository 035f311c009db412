-- ===== src/Model/Confidence.antt =====
-- The constants of the type `Confidence` of internal/model/model.go.
use the_score.Base.{String}

abbrev pub high : String
high = "high"

abbrev pub low : String
low = "low"

abbrev pub unknown : String
unknown = "unknown"

abbrev pub medium : String
medium = "medium"
