-- ===== src/Cli/Build/Jobs.antt =====
-- cmd/easyp-svc/build.go: which versions are built, with which arguments.
use mathlib.Core.List.Memᴰ
use mathlib.Core.List.{Memᴰ}
use easyp_plugin_server.Common.{
  ◌+◌, ◌≡◌, refl, ap, inl, inr, List, [], ◌∷◌, Option, none, some, Bool, true, false, Text, text_eq,
  lookup, lookup-insert, Bool-cases, arith, length, keep,
}
use easyp_plugin_server.Cli.Build.{
  Args, VersionEntry, PluginConfig, BuildJob, Match, copy_into, merge_build_args, job_of, is_wanted,
  jobs_from, jobs_from_config, split_from_cache, split_cached,
}

-- The first of two values that is there.
abbrev pub or_else {ℓ} : {A : Type ℓ} → Option A → Option A → Option A
or_else (some a) o = some a
or_else none o = o

lookup-copy_into :
    (k : Text) (dst src : Args)
    → lookup k (copy_into dst src) ≡ or_else (lookup k src) (lookup k dst)
unfolding copy_into lookup
lookup-copy_into k dst [] = refl
lookup-copy_into k dst ((j, v) ∷ src) = elim (Bool-cases (text_eq j k)) [
  | inl e ↦ rw (lookup-insert j k v (copy_into dst src), e) refl
  | inr e ↦ rw (lookup-insert j k v (copy_into dst src), e) (lookup-copy_into k dst src)
]

or_else-none {ℓ} : {A : Type ℓ} (o : Option A) → or_else o none ≡ o
or_else-none none = refl
or_else-none (some a) = refl

-- A build argument has the value that the version gives it, and that of the plugin where the
-- version gives none.
pub lookup-merge_build_args :
    (k : Text) (base override : Args)
    → lookup k (merge_build_args base override) ≡ or_else (lookup k override) (lookup k base)
unfolding merge_build_args lookup
lookup-merge_build_args k base override =
    let inner = lookup-copy_into k [] base in
    let outer = lookup-copy_into k (copy_into [] base) override in
    rw (outer, inner) (ap (or_else (lookup k override)) (or_else-none (lookup k base)))

split_from_cache-length :
    (is_regular : Text → Bool) (jobs : List BuildJob)
    → length (split_from_cache is_regular jobs).0 + (split_from_cache is_regular jobs).1
      ≡ length jobs
unfolding split_from_cache
split_from_cache-length is_regular [] = refl
split_from_cache-length is_regular (job ∷ jobs) =
    ground (arith, split_from_cache-length is_regular jobs)

pub split_cached-length :
    (is_regular : Text → Bool) (jobs : List BuildJob) (force : Bool)
    → length (split_cached is_regular jobs force).0 + (split_cached is_regular jobs force).1
      ≡ length jobs
unfolding split_cached
split_cached-length is_regular jobs true = omega arith
split_cached-length is_regular jobs false = split_from_cache-length is_regular jobs

module _ (matches : Match) (cfg : PluginConfig)
    (group name plugin_dir output_dir filter : Text) where
  -- A version that is to be built, and its job.
  pub record IsJob (versions : List VersionEntry) (job : BuildJob) : Type 0 where
    pub ver : VersionEntry
    pub is_listed : Memᴰ ver versions
    pub wanted : is_wanted matches cfg group name plugin_dir output_dir filter ver ≡ true
    pub not_skipped : ver.skip ≡ false
    pub is_job : job ≡ job_of cfg group name plugin_dir output_dir ver

  abbrev run : List VersionEntry → List BuildJob × List Text
  run = jobs_from matches cfg group name plugin_dir output_dir filter

  abbrev pub wants : VersionEntry → Bool
  wants = is_wanted matches cfg group name plugin_dir output_dir filter

  jobs_from-length :
      (versions : List VersionEntry)
      → length (run versions).0 + length (run versions).1 ≡ length (keep wants versions)
  unfolding jobs_from
  jobs_from-length [] = refl
  jobs_from-length (ver ∷ versions) = ground (arith, jobs_from-length versions)

  after :
      (ver : VersionEntry) (versions : List VersionEntry) (job : BuildJob)
      → IsJob versions job
      → IsJob (ver ∷ versions) job
  after ver versions job j = record {
    ver = j.ver;
    is_listed = Memᴰ.tail j.is_listed;
    wanted = j.wanted;
    not_skipped = j.not_skipped;
    is_job = j.is_job;
  }

  jobs_from-IsJob :
      (versions : List VersionEntry) (job : BuildJob)
      → Memᴰ job (run versions).0
      → IsJob versions job
  unfolding jobs_from
  jobs_from-IsJob [] job m = elim m [ ]
  jobs_from-IsJob (ver ∷ versions) job m = elim (Bool-cases (wants ver)) [
    | inr w ↦ after ver versions job (jobs_from-IsJob versions job (rw (w, jobs_from) at m))
    | inl w ↦ elim (Bool-cases (ver.skip)) [
      | inl s ↦ after ver versions job (jobs_from-IsJob versions job (rw (w, s, jobs_from) at m))
      | inr s ↦
          let m' : Memᴰ job (job_of cfg group name plugin_dir output_dir ver ∷ (run versions).0) =
            rw (w, s, jobs_from) at m in
          elim (Memᴰ.cases_cons m') [
            | inl e ↦ record {
              ver = ver;
              is_listed = Memᴰ.head refl;
              wanted = w;
              not_skipped = s;
              is_job = e;
            }
            | inr t ↦ after ver versions job (jobs_from-IsJob versions job t)
          ]
    ]
  ]

  -- Each job of a plugin file is that of a version of it which passes the filter and is not marked
  -- as skipped, and jobs and skipped versions are together as many as the versions that pass.
  pub jobs_from_config_lem :
      (job : BuildJob)
      → Memᴰ job (jobs_from_config matches cfg group name plugin_dir output_dir filter).0
      → IsJob cfg.versions job
        × (length (jobs_from_config matches cfg group name plugin_dir output_dir filter).0
              + length (jobs_from_config matches cfg group name plugin_dir output_dir filter).1
            ≡ length (keep wants cfg.versions))
  unfolding jobs_from_config
  jobs_from_config_lem job m = (jobs_from-IsJob cfg.versions job m, jobs_from-length cfg.versions)
