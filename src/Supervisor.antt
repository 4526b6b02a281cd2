-- ===== src/Supervisor.antt =====
-- crates/canboat-io/src/device/supervisor.rs: the times at which the supervisor reopens a device. Of a
-- session only its end is modelled; a duration is a number of milliseconds.
pub mod Backoff
use canboat_rs.Prelude.{
  ℕ, zero, suc, ◌+◌, ◌-◌, ◌*◌, List, [], ◌∷◌, Bool, true, false, ◌==◌, if◌then◌else◌, min,
}

abbrev pub initial_backoff : ℕ
initial_backoff = 500

abbrev pub max_backoff : ℕ
max_backoff = 30000

-- The sleep after a failure to open, and the next backoff; a session that ended is followed by a sleep
-- of its own.
unfoldable pub next_backoff : ℕ → Bool → ℕ
next_backoff backoff true = initial_backoff
next_backoff backoff false = min (backoff * 2) max_backoff

abbrev pub sleep_after : ℕ → Bool → ℕ
sleep_after backoff true = 500
sleep_after backoff false = backoff

-- The sleeps of `supervisor_loop`, by whether each attempt opens the device.
unfoldable pub sleeps : ℕ → List Bool → List ℕ
sleeps backoff [] = []
sleeps backoff (opened ∷ attempts) =
    sleep_after backoff opened ∷ sleeps (next_backoff backoff opened) attempts

-- `sleep_interruptible`, with the time that it has slept so far and, by that time, whether to stop.
-- Each round sleeps for at least one millisecond, so that as much fuel as there are is enough.
unfoldable pub sleep_interruptible : ℕ → (ℕ → Bool) → ℕ → ℕ → ℕ
sleep_interruptible zero stop slept remaining = slept
sleep_interruptible (suc fuel) stop slept remaining =
    let s = min 50 remaining in
    let rest = sleep_interruptible fuel stop (slept + s) (remaining - s) in
    if remaining == 0 then slept else if stop slept then slept else rest
