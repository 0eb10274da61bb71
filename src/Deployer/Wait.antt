-- ===== src/Deployer/Wait.antt =====
-- `Wait` of grid-client/deployer/deployer.go: waiting until a node has deployed all workloads. The
-- attempts come from the package backoff, which repeats the operation until it succeeds, fails for
-- good, or no attempt is left; then the error is that of the last attempt.
pub mod Outcome
pub mod Deadline
use tfgrid_sdk_go.Prelude.{
  ℕ, suc, ◌+◌, ◌-◌, ◌*◌, Bool, true, false, not, ◌&&◌, List, [], ◌∷◌, Option, none, some, Result,
  ok, err, ◌>>=◌, ltb, ◌==◌, length, if◌then◌else◌,
}
use tfgrid_sdk_go.Prelude.Maps
use tfgrid_sdk_go.Deployer.Zos.{
  Workload, ResultState, state_init, state_unchanged, state_error, state_ok, state_deleted,
  state_paused,
}
use tfgrid_sdk_go.Deployer.World.{
  GridError, Attempt, WaitError, changes_failed, workload_failed, timed_out, in_progress,
}

-- Four minutes, in milliseconds.
abbrev pub progress_limit : ℕ
progress_limit = 4 * 60 * 1000

abbrev pub version_eq : Option ℕ → ℕ → Bool
version_eq none version = false
version_eq (some expected) version = version == expected

-- The workload is waited for, at the version that it has.
unfoldable pub is_expected : List (ℕ × ℕ) → Workload → Bool
is_expected versions wl = version_eq (Maps.lookup wl.name versions) wl.wl_version

-- The `switch` on the state: a good one counts, four are final errors, others are ignored.
unfoldable pub count_state : Workload → ResultState → ℕ → Result Workload ℕ
count_state wl state_ok n = ok (n + 1)
count_state wl state_error n = err wl
count_state wl state_deleted n = err wl
count_state wl state_paused n = err wl
count_state wl state_unchanged n = err wl
count_state wl state_init n = ok n

-- The loop over the changes, from the count `n`.
unfoldable pub count_ok : List (ℕ × ℕ) → List Workload → ℕ → Result Workload ℕ
count_ok versions [] n = ok n
count_ok versions (wl ∷ wls) n = do
  counted ← if is_expected versions wl then count_state wl wl.result_state n else ok n
  count_ok versions wls counted

-- `Progress`: when the number of good workloads last grew, and that number.
pub record Progress : Type 0 where
  pub at_time : ℕ
  pub good : ℕ

abbrev pub next_progress : Progress → ℕ → ℕ → Progress
next_progress last now good_now =
    if ltb last.good good_now then record { at_time = now; good = good_now } else last

abbrev pub is_stalled : Progress → ℕ → ℕ → Bool
is_stalled last now good_now =
    not (ltb last.good good_now) && ltb progress_limit (now - last.at_time)

-- The end of one attempt: `rest` is what the later attempts give.
unfoldable pub decide : ℕ → Progress → ℕ → Result Workload ℕ → Option WaitError → Option WaitError
decide number last now (err wl) rest = some (workload_failed wl)
decide number last now (ok good_now) rest =
    if good_now == number
    then none
    else if is_stalled last now good_now
    then some timed_out
    else rest

abbrev pub progress_after : Progress → ℕ → Result Workload ℕ → Progress
progress_after last now (err wl) = last
progress_after last now (ok good_now) = next_progress last now good_now

-- The operation that is repeated. `last` is the progress so far.
unfoldable pub retry : List (ℕ × ℕ) → Progress → List Attempt → Option WaitError
retry versions last [] = some in_progress
retry versions last (a ∷ later) = elim a.changes [
  | err e ↦ some (changes_failed e)
  | ok wls ↦
      let counted = count_ok versions wls 0 in
      decide (length versions) last a.time counted
        (retry versions (progress_after last a.time counted) later)
]

-- `Wait`, which starts at `start`.
unfoldable pub wait : List (ℕ × ℕ) → ℕ → List Attempt → Option WaitError
wait versions start later = retry versions (record { at_time = start; good = 0 }) later
