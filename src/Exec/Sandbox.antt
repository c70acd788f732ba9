-- ===== src/Exec/Sandbox.antt =====
-- internal/exec/sandbox.go: the persistent sandboxes of the sessions and their collection. The root
-- holds one entry for each name. `EnsureEnv` has the outcome of the system calls of one call of
-- `SandboxFor`: the error text of `MkdirAll`, and whether the marker's times could be set or the
-- marker created.
pub mod Touched
use microagent.Prelude.{
  ℕ, Bool, true, false, ◌&&◌, ◌||◌, not, ◌==◌, Option, none, some, List, [], ◌∷◌, if◌then◌else◌,
}
use microagent.Prelude.Int.{ℤ, pos, sub_ℕ, ltb_ℤ}
use microagent.Exec.{
  Bytes, sanitize_session_id, contains_fold, GcStats, no_stats, Verdict, ignored, scanned_only,
  reclaimed_bytes, sweep,
}

-- `marker` and `modified` are the times of `.last_access` and of the directory, `none` when `Stat`
-- fails.
pub record Sandbox : Type 0 where
  pub name : Bytes
  pub is_dir : Bool
  pub marker : Option ℕ
  pub modified : Option ℕ
  pub size : ℕ
  pub removable : Bool

pub data SandboxError : Type 0 where
  root_empty workspace_full allocate_failed touch_failed : SandboxError

pub record EnsureEnv : Type 0 where
  pub mkdir_error : Option Bytes
  pub chtimes_ok : Bool
  pub create_ok : Bool

-- "no space left on device"
abbrev pub no_space_left : Bytes
no_space_left =
    110 ∷ 111 ∷ 32 ∷ 115 ∷ 112 ∷ 97 ∷ 99 ∷ 101 ∷ 32 ∷ 108 ∷ 101 ∷ 102 ∷ 116 ∷ 32 ∷ 111 ∷ 110 ∷ 32
    ∷ 100 ∷ 101 ∷ 118 ∷ 105 ∷ 99 ∷ 101 ∷ []

-- "disk quota exceeded"
abbrev pub quota_exceeded : Bytes
quota_exceeded =
    100 ∷ 105 ∷ 115 ∷ 107 ∷ 32 ∷ 113 ∷ 117 ∷ 111 ∷ 116 ∷ 97 ∷ 32 ∷ 101 ∷ 120 ∷ 99 ∷ 101 ∷ 101 ∷ 100
    ∷ 101 ∷ 100 ∷ []

abbrev pub is_no_space : Bytes → Bool
is_no_space err = contains_fold err no_space_left || contains_fold err quota_exceeded

unfoldable pub bytes_eq : Bytes → Bytes → Bool
bytes_eq [] [] = true
bytes_eq [] (b ∷ bs) = false
bytes_eq (a ∷ cs) [] = false
bytes_eq (a ∷ cs) (b ∷ bs) = a == b && bytes_eq cs bs

abbrev pub new_sandbox : Bytes → ℕ → Sandbox
new_sandbox name now = record {
  name = name;
  is_dir = true;
  marker = none;
  modified = some now;
  size = 0;
  removable = true;
}

-- `MkdirAll`: a directory that is there is kept.
unfoldable pub make_dir : ℕ → Bytes → List Sandbox → List Sandbox
make_dir now name [] = new_sandbox name now ∷ []
make_dir now name (e ∷ es) = if bytes_eq e.name name then e ∷ es else e ∷ make_dir now name es

-- The marker's time is now, whether it was there or is created.
unfoldable pub touch_last_access : ℕ → Bytes → List Sandbox → List Sandbox
touch_last_access now name [] = []
touch_last_access now name (e ∷ es) =
    if bytes_eq e.name name
    then record e { marker = some now } ∷ es
    else e ∷ touch_last_access now name es

pub data Ensured : Type 0 where
  ready : Bytes → Ensured
  refused : SandboxError → Ensured

unfoldable pub sandbox_for : ℕ → EnsureEnv → Bytes → Bytes → List Sandbox → Ensured × List Sandbox
sandbox_for now env [] session_id es = (refused root_empty, es)
sandbox_for now env (r ∷ root) session_id es =
    let safe = sanitize_session_id session_id in
    elim env.mkdir_error [
      | some err ↦ (refused (if is_no_space err then workspace_full else allocate_failed), es)
      | none ↦
          if env.chtimes_ok || env.create_ok
          then (ready safe, touch_last_access now safe (make_dir now safe es))
          else (refused touch_failed, make_dir now safe es)
    ]

unfoldable pub session_age : ℕ → Sandbox → ℤ
session_age now e = elim e.marker [
  | some m ↦ sub_ℕ now m
  | none ↦ elim e.modified [ some m ↦ sub_ℕ now m | none ↦ pos 0 ]
]

-- What `RunOnce` does with an entry of the root.
unfoldable pub sandbox_verdict : ℕ → ℤ → Sandbox → Verdict
sandbox_verdict now retention e =
    if not e.is_dir
    then ignored
    else if ltb_ℤ (session_age now e) retention
    then scanned_only
    else if e.removable
    then reclaimed_bytes e.size
    else scanned_only

-- `RunOnce` of `SandboxGC`, where `readable` says that the root can be read, cancelled after `n`
-- entries.
unfoldable pub run_once : Bool → ℕ → ℕ → ℤ → List Sandbox → GcStats × List Sandbox
run_once readable n now retention es =
    if not readable
    then (no_stats, es)
    else let (st, left, m) = sweep (sandbox_verdict now retention) n es in (st, left)
