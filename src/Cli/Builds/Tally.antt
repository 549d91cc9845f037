-- ===== src/Cli/Builds/Tally.antt =====
-- cmd/easyp-svc/build.go: the tally of the builds, in any order of their ends.
use easyp_plugin_server.Common.{
  ℕ, suc, ◌+◌, ◌≡◌, ◌≤◌, ◌⊎◌, inl, inr, refl, ap, subst, ◌∙◌, List, ◌∷◌, ◌++◌, Option, none, some,
  Bool, true, false, Text, length, length-append, arith,
}
use easyp_plugin_server.Cli.Build.{BuildJob, job_key, BuildError, mkdir_failed, normalize_output}
use easyp_plugin_server.Cli.Builds.{
  Tracker, new_build_tracker, start, finish, keep_or_fail, open_build, close_build, Phase, opening,
  building, Run, cancels, first_run, Step, launch, opened, not_opened, closed, Steps, stop, further,
}

-- One build more is counted, and an error is passed on only where the run does not keep going.
record Counted (keep_going : Bool) (t next : Tracker) (failure : Option BuildError) : Type 0 where
  total : next.total ≡ t.total
  completed : next.completed ≡ suc t.completed
  ended :
      ((next.succeeded ≡ suc t.succeeded) × (next.failed ≡ t.failed) × (failure ≡ none))
      ⊎ ((next.succeeded ≡ t.succeeded)
          × (next.failed ≡ suc t.failed)
          × ((failure ≡ none) ⊎ (keep_going ≡ false)))

failed-Counted :
    (keep_going : Bool) (e : BuildError) (key : Text) (t : Tracker)
    → Counted keep_going t (finish key false t) (keep_or_fail keep_going e)
unfolding finish keep_or_fail
failed-Counted true e key t = record {
  total = refl;
  completed = refl;
  ended = inr (refl, refl, inl refl);
}
failed-Counted false e key t = record {
  total = refl;
  completed = refl;
  ended = inr (refl, refl, inr refl);
}

close_build-Counted :
    (keep_going built : Bool) (artifact : Option ℕ) (job : BuildJob) (t : Tracker)
    → Counted keep_going t
        (close_build keep_going built artifact job t).0
        (close_build keep_going built artifact job t).1
unfolding close_build normalize_output
close_build-Counted keep_going false artifact job t = failed-Counted keep_going _ _ t
close_build-Counted keep_going true none job t = failed-Counted keep_going _ _ t
close_build-Counted keep_going true (some size) job t = record {
  total = refl;
  completed = refl;
  ended = inl (refl, refl, refl);
}

open_build-Counted :
    (keep_going : Bool) (job : BuildJob) (t next : Tracker) (failure : Option BuildError)
    → open_build keep_going false job t ≡ (next, some failure)
    → Counted keep_going t next failure
unfolding open_build
open_build-Counted keep_going job t next failure h =
    let counted : finish (job_key job) false t ≡ next = ap (λ p. p.0) h in
    let ended : some (keep_or_fail keep_going mkdir_failed) ≡ some failure = ap (λ p. p.1) h in
    let passed : keep_or_fail keep_going mkdir_failed ≡ failure = cc ended in
    rw (← counted, ← passed) (failed-Counted keep_going mkdir_failed (job_key job) t)

module _ (keep_going : Bool) (parallel : ℕ) where
  -- What holds of a run of so many builds.
  pub record Accounted (count : ℕ) (r : Run) : Type 0 where
    pub total : r.tracker.total ≡ count
    pub tallied : r.tracker.completed ≡ r.tracker.succeeded + r.tracker.failed
    pub all_there : r.tracker.completed + (length r.running + length r.pending) ≡ count
    pub limited : length r.running ≤ parallel
    pub cancelled_by_failure :
        (r.cancelled ≡ false) ⊎ ((keep_going ≡ false) × (1 ≤ r.tracker.failed))

  first_run-Accounted : (jobs : List BuildJob) → Accounted (length jobs) (first_run jobs)
  unfolding first_run new_build_tracker
  first_run-Accounted jobs = record {
    total = refl;
    tallied = refl;
    all_there = omega arith;
    limited = omega arith;
    cancelled_by_failure = inl refl;
  }

  Counted-Accounted :
      (count : ℕ) (pending : List BuildJob) (ahead behind : List (BuildJob × Phase))
      (item : BuildJob × Phase) (t next : Tracker) (cancelled : Bool) (failure : Option BuildError)
      → Counted keep_going t next failure
      → Accounted count record {
        pending = pending;
        running = ahead ++ item ∷ behind;
        tracker = t;
        cancelled = cancelled;
      }
      → Accounted count record {
        pending = pending;
        running = ahead ++ behind;
        tracker = next;
        cancelled = cancels failure cancelled;
      }
  unfolding cancels
  Counted-Accounted count pending ahead behind item t next cancelled failure c a =
      let longer = length-append ahead (item ∷ behind) in
      let shorter = length-append ahead behind in
      record {
        total = c.total ∙ a.total;
        tallied = elim c.ended [
          | inl e ↦ omega (arith, e.0, e.1, c.completed, a.tallied)
          | inr e ↦ omega (arith, e.0, e.1, c.completed, a.tallied)
        ];
        all_there = omega (arith, longer, shorter, c.completed, a.all_there);
        limited = omega (arith, longer, shorter, a.limited);
        cancelled_by_failure = elim c.ended [
          | inl e ↦ rw (e.2, e.1) a.cancelled_by_failure
          | inr (s, f, inl e) ↦ elim a.cancelled_by_failure [
            | inl n ↦ rw e (inl n)
            | inr (k, g) ↦ inr (k, omega (arith, f, g))
          ]
          | inr (s, f, inr e) ↦ inr (e, omega (arith, f))
        ];
      }

  Step-Accounted :
      (count : ℕ) (r next : Run)
      → Step keep_going parallel r next
      → Accounted count r
      → Accounted count next
  unfolding open_build start
  Step-Accounted count r next (launch job pending running tracker cancelled room) a = record {
    total = a.total;
    tallied = a.tallied;
    all_there = omega (arith, a.all_there);
    limited = omega (arith, room);
    cancelled_by_failure = a.cancelled_by_failure;
  }
  Step-Accounted count r next (opened job pending ahead behind tracker t cancelled h) a =
      let started : start (job_key job) tracker ≡ t = ap (λ p. p.0) h in
      let longer = length-append ahead ((job, opening) ∷ behind) in
      let same = length-append ahead ((job, building) ∷ behind) in
      rw (← started) record {
        total = a.total;
        tallied = a.tallied;
        all_there = omega (arith, longer, same, a.all_there);
        limited = omega (arith, longer, same, a.limited);
        cancelled_by_failure = a.cancelled_by_failure;
      }
  Step-Accounted count r next (not_opened job pending ahead behind tracker t cancelled failure h)
        a =
      Counted-Accounted count pending ahead behind (job, opening) tracker t cancelled failure
        (open_build-Counted keep_going job tracker t failure h) a
  Step-Accounted count r next
        (closed job pending ahead behind built artifact tracker t cancelled failure h) a =
      Counted-Accounted count pending ahead behind (job, building) tracker t cancelled failure
        (subst (λ p. Counted keep_going tracker p.0 p.1) h
          (close_build-Counted keep_going built artifact job tracker))
        a

  Steps-keeps :
      (count : ℕ) (first r : Run)
      → Steps keep_going parallel first r
      → Accounted count first
      → Accounted count r
  Steps-keeps count first r stop a = a
  Steps-keeps count first r (further {s = s} before last) a =
      Step-Accounted count s r last (Steps-keeps count first s before a)

  pub Steps-Accounted :
      (jobs : List BuildJob) (r : Run)
      → Steps keep_going parallel (first_run jobs) r
      → Accounted (length jobs) r
  Steps-Accounted jobs r steps =
      Steps-keeps (length jobs) (first_run jobs) r steps (first_run-Accounted jobs)
