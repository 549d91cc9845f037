-- ===== src/Cli/Builds/Outcome.antt =====
-- cmd/easyp-svc/build.go: where a run of builds ends.
use easyp_plugin_server.Common.{
  ℕ, ◌+◌, ◌≡◌, ◌↔◌, refl, List, ◌∷◌, none, Bool, Text, length, length-append, arith,
}
use easyp_plugin_server.Cli.Build.{BuildJob, split_cached}
use easyp_plugin_server.Cli.Build.Jobs.{split_cached-length}
use easyp_plugin_server.Cli.Builds.{
  Tracker, opening, building, Run, first_run, Step, launch, opened, not_opened, closed, Steps, stop,
  further, IsDone, build_result,
}
use easyp_plugin_server.Cli.Builds.Tally.{Accounted, Steps-Accounted}

build_result_iff : (t : Tracker) → (build_result t ≡ none) ↔ (t.failed ≡ 0)
unfolding build_result
build_result_iff t = ground arith

-- When all builds have ended, those that were found in the cache, that succeeded and that failed
-- are together all the jobs, and there is an error just when a build failed.
pub done_builds :
    (keep_going : Bool) (parallel : ℕ) (is_regular : Text → Bool) (jobs : List BuildJob)
    (force : Bool) (r : Run)
    → Steps keep_going parallel (first_run (split_cached is_regular jobs force).0) r
    → IsDone r
    → (r.tracker.succeeded + r.tracker.failed + (split_cached is_regular jobs force).1
        ≡ length jobs)
      × ((build_result r.tracker ≡ none) ↔ (r.tracker.failed ≡ 0))
done_builds keep_going parallel is_regular jobs force r steps done =
    let to_build = (split_cached is_regular jobs force).0 in
    let a = Steps-Accounted keep_going parallel to_build r steps in
    let split = split_cached-length is_regular jobs force in
    let running : length r.running ≡ 0 = rw (done.none_running) refl in
    let pending : length r.pending ≡ 0 = rw (done.none_pending) refl in
    (omega (arith, a.tallied, a.all_there, split, running, pending), build_result_iff r.tracker)

never_steps :
    (keep_going : Bool) (count : ℕ) (r next : Run)
    → Accounted keep_going 0 count r
    → Step keep_going 0 r next
    → ⊥
never_steps keep_going count r next a (launch job pending running tracker cancelled room) =
    omega (arith, room)
never_steps keep_going count r next a (opened job pending ahead behind tracker t cancelled h) =
    omega (arith, a.limited, length-append ahead ((job, opening) ∷ behind))
never_steps keep_going count r next a
      (not_opened job pending ahead behind tracker t cancelled failure h) =
    omega (arith, a.limited, length-append ahead ((job, opening) ∷ behind))
never_steps keep_going count r next a
      (closed job pending ahead behind built artifact tracker t cancelled failure h) =
    omega (arith, a.limited, length-append ahead ((job, building) ∷ behind))

-- With a limit of none at once, the run never gets anywhere.
pub builds_stuck :
    (keep_going : Bool) (jobs : List BuildJob) (r : Run)
    → Steps keep_going 0 (first_run jobs) r
    → r ≡ first_run jobs
builds_stuck keep_going jobs r stop = refl
builds_stuck keep_going jobs r (further {s = s} before last) =
    absurd
      (never_steps keep_going (length jobs) s r (Steps-Accounted keep_going 0 jobs s before) last)
