-- ===== src/Model.antt =====
-- internal/model/model.go: the resources of the graph, as the daemon stores and sends them.
-- A Go string is a text, and a `time.Time` the number of nanoseconds since the zero time, so that
-- `IsZero` is the test for 0. A `map[string]interface{}` is a value of `Fields`; a number that the JSON
-- decoder made keeps its text.
pub mod Status
pub mod Confidence
pub mod Attention
use the_score.Base.{ℕ, String, Option, Bool, List, ℤ}

abbrev pub Time : Type 0
Time = ℕ

mutual
  pub data Value : Type 0 where
    null : Value
    bool : Bool → Value
    int : ℤ → Value
    str : String → Value
    strings : List String → Value
    number : String → Value
    array : Items → Value
    object : Fields → Value

  pub data Items : Type 0 where
    nil : Items
    item : Value → Items → Items

  pub data Fields : Type 0 where
    end : Fields
    field : String → Value → Fields → Fields

pub record Agent : Type 0 where
  pub name : String
  pub vendor : String
  pub adapter : String

pub record Capabilities : Type 0 where
  pub logs : Bool
  pub children : Bool
  pub attach : Bool
  pub stop : Bool
  pub send_prompt : Bool
  pub approvals : Bool

pub record Session : Type 0 where
  pub id : String
  pub kind : String
  pub agent : Agent
  pub title : String
  pub summary : String
  pub status : String
  pub attention : String
  pub status_detail : String
  pub confidence : String
  pub source : String
  pub cwd : String
  pub workspace_roots : List String
  pub started_at : Time
  pub last_activity_at : Time
  pub ended_at : Option Time
  pub parent_session_id : String
  pub root_session_id : String
  pub runtime_ids : List String
  pub workspace_ids : List String
  pub artifact_ids : List String
  pub capabilities : Capabilities
  pub meta : Fields

pub record Process : Type 0 where
  pub id : String
  pub kind : String
  pub pid : ℤ
  pub ppid : ℤ
  pub command : String
  pub args : String
  pub cwd : String
  pub session_ids : List String
  pub liveness : String
  pub source : String
  pub confidence : String
  pub observed_at : Time
  pub meta : Fields

pub record Workspace : Type 0 where
  pub id : String
  pub kind : String
  pub path : String
  pub repo_root : String
  pub branch : String
  pub session_ids : List String
  pub source : String
  pub confidence : String
  pub observed_at : Time
  pub meta : Fields

pub record Edge : Type 0 where
  pub id : String
  pub from : String
  pub to : String
  pub type : String
  pub source : String
  pub confidence : String
  pub observed_at : Time

pub record Event : Type 0 where
  pub seq : ℤ
  pub type : String
  pub session_id : String
  pub process_id : String
  pub workspace_id : String
  pub edge_id : String
  pub summary : String
  pub source : String
  pub observed_at : Time
  pub data_ : Fields

pub record Source : Type 0 where
  pub id : String
  pub name : String
  pub kind : String
  pub enabled : Bool
  pub status : String
  pub support_level : String
  pub detected_version : String
  pub detected_path : String
  pub capabilities : List String
  pub diagnostics : List String
  pub observed_at : Time
  pub meta : Fields

pub record Lineage : Type 0 where
  pub root_session_id : String
  pub sessions : List Session
  pub processes : List Process
  pub workspaces : List Workspace
  pub edges : List Edge

-- The zero values of Go, from which the composite literals in the source start.
abbrev pub zero_agent : Agent
zero_agent = record { name = ""; vendor = ""; adapter = "" }

abbrev pub zero_capabilities : Capabilities
zero_capabilities = record {
  logs = Bool.false;
  children = Bool.false;
  attach = Bool.false;
  stop = Bool.false;
  send_prompt = Bool.false;
  approvals = Bool.false;
}

abbrev pub zero_session : Session
zero_session = record {
  id = "";
  kind = "";
  agent = zero_agent;
  title = "";
  summary = "";
  status = "";
  attention = "";
  status_detail = "";
  confidence = "";
  source = "";
  cwd = "";
  workspace_roots = List.[];
  started_at = 0;
  last_activity_at = 0;
  ended_at = Option.none;
  parent_session_id = "";
  root_session_id = "";
  runtime_ids = List.[];
  workspace_ids = List.[];
  artifact_ids = List.[];
  capabilities = zero_capabilities;
  meta = end;
}

abbrev pub zero_process : Process
zero_process = record {
  id = "";
  kind = "";
  pid = ℤ.pos 0;
  ppid = ℤ.pos 0;
  command = "";
  args = "";
  cwd = "";
  session_ids = List.[];
  liveness = "";
  source = "";
  confidence = "";
  observed_at = 0;
  meta = end;
}

abbrev pub zero_workspace : Workspace
zero_workspace = record {
  id = "";
  kind = "";
  path = "";
  repo_root = "";
  branch = "";
  session_ids = List.[];
  source = "";
  confidence = "";
  observed_at = 0;
  meta = end;
}

abbrev pub zero_edge : Edge
zero_edge = record {
  id = "";
  from = "";
  to = "";
  type = "";
  source = "";
  confidence = "";
  observed_at = 0;
}

abbrev pub zero_event : Event
zero_event = record {
  seq = ℤ.pos 0;
  type = "";
  session_id = "";
  process_id = "";
  workspace_id = "";
  edge_id = "";
  summary = "";
  source = "";
  observed_at = 0;
  data_ = end;
}

abbrev pub zero_source : Source
zero_source = record {
  id = "";
  name = "";
  kind = "";
  enabled = Bool.false;
  status = "";
  support_level = "";
  detected_version = "";
  detected_path = "";
  capabilities = List.[];
  diagnostics = List.[];
  observed_at = 0;
  meta = end;
}
