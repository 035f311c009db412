-- ===== src/Daemon.antt =====
-- internal/daemon/server.go and cmd/scored/main.go: the server, its sources, its accept loop and the
-- exit status of the daemon.
pub mod Starts
pub mod Stopping
use the_score.Base.{
  ℕ, suc, Bool, true, String, List, [], ◌∷◌, ◌++◌, Option, none, some, if◌then◌else◌,
}
use the_score.Strings.{◌⧺◌}
use the_score.Model.{Time, Source, zero_source}
use the_score.Store.{Store, new, now, tick}
use the_score.Store.Sources.{upsert_source}

-- The literal of `seedSources`.
pub seed_list : Time → List Source
seed_list time =
    record zero_source {
      id = "native";
      name = "Native Observation API";
      kind = "api";
      enabled = true;
      status = "active";
      support_level = "native";
      capabilities = "sessions" ∷ "workspaces" ∷ "lineage" ∷ "events" ∷ [];
      observed_at = time;
    }
    ∷ record zero_source {
      id = "process";
      name = "Process Table";
      kind = "runtime";
      enabled = true;
      status = "active";
      support_level = "compatible";
      capabilities = "processes" ∷ [];
      observed_at = time;
    }
    ∷ record zero_source {
      id = "git-worktree";
      name = "Git Worktree";
      kind = "workspace";
      enabled = true;
      status = "planned";
      support_level = "not_installed";
      capabilities = "workspaces" ∷ [];
      diagnostics = "workspace discovery is declared but not implemented in this build" ∷ [];
      observed_at = time;
    }
    ∷ record zero_source {
      id = "tmux";
      name = "tmux";
      kind = "runtime";
      enabled = true;
      status = "planned";
      support_level = "not_installed";
      capabilities = "processes" ∷ "sessions" ∷ [];
      diagnostics = "tmux integration is declared but not implemented in this build" ∷ [];
      observed_at = time;
    }
    ∷ record zero_source {
      id = "claude";
      name = "Claude Code";
      kind = "session";
      enabled = true;
      status = "partial";
      support_level = "process_probe";
      capabilities = "sessions" ∷ "processes" ∷ [];
      diagnostics =
          "passive process detection is active; deeper Claude session telemetry is not implemented in this build"
          ∷ [];
      observed_at = time;
    }
    ∷ record zero_source {
      id = "codex";
      name = "Codex";
      kind = "session";
      enabled = true;
      status = "partial";
      support_level = "process_probe";
      capabilities = "sessions" ∷ "processes" ∷ [];
      diagnostics =
          "passive process detection is active; deeper Codex session telemetry is not implemented in this build"
          ∷ [];
      observed_at = time;
    }
    ∷ record zero_source {
      id = "opencode";
      name = "OpenCode";
      kind = "session";
      enabled = true;
      status = "partial";
      support_level = "process_probe";
      capabilities = "sessions" ∷ "processes" ∷ [];
      diagnostics =
          "passive process detection is active; deeper OpenCode session telemetry is not implemented in this build"
          ∷ [];
      observed_at = time;
    }
    ∷ record zero_source {
      id = "hermes";
      name = "Hermes";
      kind = "session";
      enabled = true;
      status = "partial";
      support_level = "process_probe";
      capabilities = "sessions" ∷ "processes" ∷ [];
      diagnostics =
          "passive process detection is active; deeper Hermes session telemetry is not implemented in this build"
          ∷ [];
      observed_at = time;
    }
    ∷ record zero_source {
      id = "openclaw";
      name = "OpenClaw";
      kind = "session";
      enabled = true;
      status = "partial";
      support_level = "process_probe";
      capabilities = "sessions" ∷ "processes" ∷ [];
      diagnostics =
          "passive process detection is active; deeper OpenClaw session telemetry is not implemented in this build"
          ∷ [];
      observed_at = time;
    }
    ∷ record zero_source {
      id = "nanoclaw";
      name = "NanoClaw";
      kind = "session";
      enabled = true;
      status = "partial";
      support_level = "process_probe";
      capabilities = "sessions" ∷ "processes" ∷ [];
      diagnostics =
          "passive process detection is active; deeper NanoClaw session telemetry is not implemented in this build"
          ∷ [];
      observed_at = time;
    }
    ∷ record zero_source {
      id = "mcp";
      name = "MCP";
      kind = "protocol";
      enabled = true;
      status = "planned";
      support_level = "not_installed";
      capabilities = "tool_calls" ∷ "events" ∷ [];
      diagnostics = "MCP source is part of the core bundle but not implemented in this build" ∷ [];
      observed_at = time;
    }
    ∷ []

-- The loop of `seedSources`.
pub seed_all : List Source → Store → Store
seed_all [] s = s
seed_all (source ∷ sources) s = seed_all sources (upsert_source source s).0

pub seed_sources : Store → Store
unfolding seed_all seed_list
seed_sources s = seed_all (seed_list (now s)) (tick s)

-- The store of `New`, in a process with this clock.
unfoldable pub new_server : (ℕ → Time) → Store
unfolding seed_sources
new_server clock = seed_sources (new clock)

-- What `listener.Accept` returns: a connection, or an error, with whether the context is done by then
-- and whether the error is `net.ErrClosed`.
pub data Accepted : Type 0 where
  connection : Accepted
  failure : (cancelled closed : Bool) (message : String) → Accepted

-- The connections that were handed to `ServeConn`, and what `Serve` returned: `none` while it waits,
-- and else the error, if there is one.
pub record Serving : Type 0 where
  pub served : ℕ
  pub returned : Option (Option String)

-- The loop of `Serve`.
pub serve : List Accepted → Serving
serve [] = record { served = 0; returned = none }
serve (connection ∷ rest) = let later = serve rest in record later { served = suc later.served }
serve (failure cancelled closed message ∷ rest) = record {
  served = 0;
  returned = some (if cancelled then none else if closed then none else some message);
}

-- How `main` ends: with an exit status and a message, or not yet.
pub data Exit : Type 0 where
  running : Exit
  exited : (status : ℕ) (message : String) → Exit

pub served_exit : Option (Option String) → Exit
served_exit none = running
served_exit (some none) = exited 0 ""
served_exit (some (some message)) = exited 1 ("scored: " ⧺ message)

-- `main` of scored, with the error of `ListenDefault`. An error of `Accept` is never
-- `context.Canceled`, the other error that `main` forgives.
unfoldable pub scored_main : Option String → List Accepted → Exit
unfolding serve served_exit
scored_main (some message) accepts = exited 1 ("scored: listen failed: " ⧺ message)
scored_main none accepts = served_exit (serve accepts).returned
