-- ===== src/Slots/Ops.antt =====
-- The calls of internal/broker/slots.go that change the table, as one type, and histories of calls.
use microagent.Prelude.{ℕ, String, Bool, List, [], ◌∷◌}
use microagent.Prelude.Int.{ℤ}
use microagent.Slots.{
  SlotTable, Call, returns, panics, assign_provisional, commit_assignment, revert_provisional,
  assign, force_assign, release, release_by_agent,
}

pub data Op : Type 0 where
  provision : ℕ → ℤ → String → ℤ → String → Op
  commit : String → Op
  revert : String → Op
  give : ℕ → ℤ → String → ℤ → Op
  force : ℕ → ℤ → String → ℤ → Op
  free : ℤ → Op
  free_agent : String → Op

-- What a call leaves behind; a panic ends the process, and nothing is written before it.
abbrev pub after_assign : SlotTable → Call (SlotTable × Bool) → SlotTable
after_assign t (returns (t', done)) = t'
after_assign t panics = t

abbrev pub after_force : SlotTable → Call SlotTable → SlotTable
after_force t (returns t') = t'
after_force t panics = t

unfoldable pub apply : Op → SlotTable → SlotTable
apply (provision now i agent_id priority corr) t =
    (assign_provisional now i agent_id priority corr t).0
apply (commit corr) t = (commit_assignment corr t).0
apply (revert corr) t = (revert_provisional corr t).0
apply (give now i agent_id priority) t = after_assign t (assign now i agent_id priority t)
apply (force now i agent_id priority) t = after_force t (force_assign now i agent_id priority t)
apply (free i) t = release i t
apply (free_agent agent_id) t = (release_by_agent agent_id t).0

unfoldable pub apply_all : List Op → SlotTable → SlotTable
apply_all [] t = t
apply_all (o ∷ os) t = apply_all os (apply o t)
