-- ===== src/Model/Attention.antt =====
-- The constants of the type `Attention` of internal/model/model.go.
use the_score.Base.{String}

abbrev pub none : String
none = "none"

abbrev pub input : String
input = "input"

abbrev pub review : String
review = "review"

abbrev pub error : String
error = "error"
