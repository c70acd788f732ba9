-- ===== src/Retro.antt =====
-- internal/retro: the jobs that look back at a session, their locks, checkpoints and triggers. The
-- locks that are held are a list of keys, the checkpoints a map; their expiry is left out. `up k`
-- says whether Redis answers for key `k`.
pub mod Tags
pub mod Jobs
pub mod Trigger
use Prim.Native.String.{◌++◌ as str_append}
use microagent.Prelude.{
  ℕ, String, Bool, true, false, not, Option, none, some, List, [], ◌∷◌, if◌then◌else◌,
}
use microagent.Prelude.Text.{str_eq}
use microagent.Response.{Result, ok, failed, Failure, is_seen, Map, lookup, insert, remove}

abbrev pub lock_key : String → String → String
lock_key sid job_type = str_append "retro:lock:" (str_append sid (str_append ":" job_type))

-- `SETNX`: nothing is taken when the lock is held.
unfoldable pub acquire_lock :
    (String → Bool) → String → String → List String → Result Bool × List String
acquire_lock up sid job_type locks =
    let key = lock_key sid job_type in
    if not (up key)
    then (failed Failure.redis_error, locks)
    else if is_seen key locks
    then (ok false, locks)
    else (ok true, key ∷ locks)

unfoldable pub without_key : String → List String → List String
without_key key [] = []
without_key key (k ∷ ks) = let rest = without_key key ks in if str_eq k key then rest else k ∷ rest

-- Whether the `DEL` is carried out is an argument of its own: its error is ignored.
unfoldable pub release_lock : Bool → String → String → List String → List String
release_lock deleted sid job_type locks =
    if deleted then without_key (lock_key sid job_type) locks else locks

abbrev pub checkpoint_key : String → String → String
checkpoint_key sid job_type =
    str_append "retro:checkpoint:" (str_append sid (str_append ":" job_type))

-- A checkpoint by its number of processed turns.
abbrev pub Checkpoints : Type 0
Checkpoints = Map ℕ

unfoldable pub save_checkpoint : (String → Bool) → String → String → ℕ → Checkpoints → Checkpoints
save_checkpoint up sid job_type turns m =
    let key = checkpoint_key sid job_type in if up key then insert key turns m else m

unfoldable pub load_checkpoint : (String → Bool) → String → String → Checkpoints → Option ℕ
load_checkpoint up sid job_type m =
    let key = checkpoint_key sid job_type in if up key then lookup key m else none

unfoldable pub clear_checkpoint : (String → Bool) → String → String → Checkpoints → Checkpoints
clear_checkpoint up sid job_type m =
    let key = checkpoint_key sid job_type in if up key then remove key m else m
