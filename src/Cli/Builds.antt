-- ===== src/Cli/Builds.antt =====
-- cmd/easyp-svc/build.go: the builds of a run, of which several go on at once, and their tally.
pub mod Tally
pub mod Outcome
use easyp_plugin_server.Common.{
  ℕ, zero, suc, ◌+◌, ◌≡◌, ◌<◌, List, [], ◌∷◌, ◌++◌, Option, none, some, Bool, true, false, ◌||◌,
  not, Text, text_eq, Result, ok, err, length, if◌then◌else◌, ltb,
}
use easyp_plugin_server.Cli.Build.{
  BuildJob, BuildError, mkdir_failed, docker_failed, job_key, normalize_output, split_cached,
}

-- buildTracker, without the times and what only the display needs.
pub record Tracker : Type 0 where
  pub active : List Text
  pub total : ℕ
  pub completed : ℕ
  pub succeeded : ℕ
  pub failed : ℕ

-- newBuildTracker
unfoldable pub new_build_tracker : ℕ → Tracker
new_build_tracker total = record {
  active = [];
  total = total;
  completed = 0;
  succeeded = 0;
  failed = 0;
}

-- delete of a Go map, on its keys
unfoldable pub without : Text → List Text → List Text
unfolding text_eq
without key [] = []
without key (k ∷ keys) = let rest = without key keys in if text_eq k key then rest else k ∷ rest

-- start
unfoldable pub start : Text → Tracker → Tracker
unfolding without
start key t = record t { active = key ∷ without key t.active }

-- finish
unfoldable pub finish : Text → Bool → Tracker → Tracker
unfolding without
finish key success t = record {
  active = without key t.active;
  total = t.total;
  completed = suc t.completed;
  succeeded = if success then suc t.succeeded else t.succeeded;
  failed = if success then t.failed else suc t.failed;
}

-- keepOrFail
unfoldable pub keep_or_fail : Bool → BuildError → Option BuildError
keep_or_fail keep_going e = if keep_going then none else some e

-- buildOne up to the call of Docker: the tally, and the end of the build where the directory cannot
-- be made.
unfoldable pub open_build : Bool → Bool → BuildJob → Tracker → Tracker × Option (Option BuildError)
unfolding start finish keep_or_fail job_key
open_build keep_going made job t =
    if made
    then (start (job_key job) t, none)
    else (finish (job_key job) false t, some (keep_or_fail keep_going mkdir_failed))

-- buildOne from the answer of Docker on, and the size of a regular file at the entrypoint's place.
unfoldable pub close_build :
    Bool → Bool → Option ℕ → BuildJob → Tracker → Tracker × Option BuildError
unfolding finish keep_or_fail job_key normalize_output
close_build keep_going built artifact job t =
    if not built
    then (finish (job_key job) false t, keep_or_fail keep_going docker_failed)
    else elim (normalize_output artifact) [
      | err e ↦ (finish (job_key job) false t, keep_or_fail keep_going e)
      | ok details ↦ (finish (job_key job) true t, none)
    ]

-- A build that the group has started, and whether it has come to the call of Docker.
pub data Phase : Type 0 where
  opening building : Phase

-- executeBuilds between two actions; an error of a build cancels the context of the others.
pub record Run : Type 0 where
  pub pending : List BuildJob
  pub running : List (BuildJob × Phase)
  pub tracker : Tracker
  pub cancelled : Bool

unfoldable pub cancels : Option BuildError → Bool → Bool
cancels none cancelled = cancelled
cancels (some e) cancelled = true

-- The state of executeBuilds before its loop.
unfoldable pub first_run : List BuildJob → Run
unfolding new_build_tracker
first_run jobs = record {
  pending = jobs;
  running = [];
  tracker = new_build_tracker (length jobs);
  cancelled = false;
}

-- The group starts a build when fewer than the limit are running; each of the builds goes on by
-- itself. What the disk and Docker answer is open; under a cancelled context the latter may only
-- have failed for a build that comes to it, which is one of the open answers.
module _ (keep_going : Bool) (parallel : ℕ) where
  pub data Step : Run → Run → Type 0 where
    launch :
        (job : BuildJob) (pending : List BuildJob) (running : List (BuildJob × Phase))
        (tracker : Tracker) (cancelled : Bool)
        → length running < parallel
        → Step
            record {
              pending = job ∷ pending;
              running = running;
              tracker = tracker;
              cancelled = cancelled;
            }
            record {
              pending = pending;
              running = (job, opening) ∷ running;
              tracker = tracker;
              cancelled = cancelled;
            }
    opened :
        (job : BuildJob) (pending : List BuildJob) (ahead behind : List (BuildJob × Phase))
        (tracker next : Tracker) (cancelled : Bool)
        → open_build keep_going true job tracker ≡ (next, none)
        → Step
            record {
              pending = pending;
              running = ahead ++ (job, opening) ∷ behind;
              tracker = tracker;
              cancelled = cancelled;
            }
            record {
              pending = pending;
              running = ahead ++ (job, building) ∷ behind;
              tracker = next;
              cancelled = cancelled;
            }
    not_opened :
        (job : BuildJob) (pending : List BuildJob) (ahead behind : List (BuildJob × Phase))
        (tracker next : Tracker) (cancelled : Bool) (failure : Option BuildError)
        → open_build keep_going false job tracker ≡ (next, some failure)
        → Step
            record {
              pending = pending;
              running = ahead ++ (job, opening) ∷ behind;
              tracker = tracker;
              cancelled = cancelled;
            }
            record {
              pending = pending;
              running = ahead ++ behind;
              tracker = next;
              cancelled = cancels failure cancelled;
            }
    closed :
        (job : BuildJob) (pending : List BuildJob) (ahead behind : List (BuildJob × Phase))
        (built : Bool) (artifact : Option ℕ) (tracker next : Tracker) (cancelled : Bool)
        (failure : Option BuildError)
        → close_build keep_going built artifact job tracker ≡ (next, failure)
        → Step
            record {
              pending = pending;
              running = ahead ++ (job, building) ∷ behind;
              tracker = tracker;
              cancelled = cancelled;
            }
            record {
              pending = pending;
              running = ahead ++ behind;
              tracker = next;
              cancelled = cancels failure cancelled;
            }

  pub data Steps : Run → Run → Type 0 where
    stop : {r : Run} → Steps r r
    further : {r s t : Run} → Steps r s → Step s t → Steps r t

-- Wait returns when every build has ended.
pub record IsDone (r : Run) : Type 0 where
  pub none_pending : r.pending ≡ []
  pub none_running : r.running ≡ []

-- The error of runPluginsBuild after the builds: the number of failures in it, if there are any.
unfoldable pub build_result : Tracker → Option ℕ
build_result t = if ltb 0 t.failed then some t.failed else none
