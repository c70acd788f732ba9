-- ===== src/Exec/Gc.antt =====
-- internal/exec/gc.go: the collection of the finished workspaces. An entry of a session's directory
-- has what `ReadFile` and `Unmarshal` make of its `.metadata.json`, and whether `RemoveAll`
-- succeeds. The context is asked before each entry of either loop, and is found cancelled after `n`
-- answers.
pub mod Kept
use microagent.Prelude.{
  ℕ, zero, suc, Bool, true, false, not, ◌||◌, Option, none, some, List, [], ◌∷◌, ◌+◌, if◌then◌else◌,
}
use microagent.Prelude.Int.{ℤ, sub_ℕ, ltb_ℤ}
use microagent.Exec.{
  Bytes, GcStats, no_stats, Verdict, ignored, scanned_only, reclaimed_bytes, sweep,
}

-- `ended_at none` is the zero time.
pub data Metadata : Type 0 where
  absent malformed : Metadata
  ended_at : Option ℕ → Metadata

pub record Invocation : Type 0 where
  pub name : Bytes
  pub is_dir : Bool
  pub metadata : Metadata
  pub size : ℕ
  pub removable : Bool

pub record SessionDir : Type 0 where
  pub name : Bytes
  pub is_dir : Bool
  pub readable : Bool
  pub removable : Bool
  pub invocations : List Invocation

abbrev pub verdict_of_age : ℤ → ℤ → Invocation → Verdict
verdict_of_age age retention inv =
    if ltb_ℤ age retention
    then scanned_only
    else if inv.removable
    then reclaimed_bytes inv.size
    else scanned_only

unfoldable pub invocation_verdict : ℕ → ℤ → Invocation → Verdict
invocation_verdict now retention inv = if not inv.is_dir then ignored else elim inv.metadata [
  | absent ↦ scanned_only
  | malformed ↦ scanned_only
  | ended_at none ↦ scanned_only
  | ended_at (some t) ↦ verdict_of_age (sub_ℕ now t) retention inv
]

abbrev pub add_stats : GcStats → GcStats → GcStats
add_stats a b = record {
  scanned = a.scanned + b.scanned;
  reclaimed = a.reclaimed + b.reclaimed;
  freed_bytes = a.freed_bytes + b.freed_bytes;
}

-- `os.Remove` takes an empty directory only.
abbrev pub close_session : SessionDir → List Invocation → List SessionDir → List SessionDir
close_session s [] rest = if s.removable then rest else record s { invocations = [] } ∷ rest
close_session s (i ∷ is) rest = record s { invocations = i ∷ is } ∷ rest

unfoldable pub sweep_sessions : ℕ → ℤ → ℕ → List SessionDir → GcStats × List SessionDir
sweep_sessions now retention n [] = (no_stats, [])
sweep_sessions now retention zero (s ∷ ss) = (no_stats, s ∷ ss)
sweep_sessions now retention (suc n) (s ∷ ss) = elim (not s.is_dir || not s.readable) [
  | true ↦ let (st, left) = sweep_sessions now retention n ss in (st, s ∷ left)
  | false ↦
      let (st, invs, m) = sweep (invocation_verdict now retention) n s.invocations in
      let (st', left) = sweep_sessions now retention m ss in
      (add_stats st st', close_session s invs left)
]

-- `RunOnce` of `GC`, where `readable` says that the root can be read.
unfoldable pub run_once : Bool → ℕ → ℤ → ℕ → List SessionDir → GcStats × List SessionDir
run_once readable now retention n ss =
    if readable then sweep_sessions now retention n ss else (no_stats, ss)
