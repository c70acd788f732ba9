-- ===== src/MainAgent/Loop.antt =====
-- cmd/main-agent/main.go: what every step of a turn keeps.
use microagent.Prelude.{
  ℕ, zero, suc, ◌+◌, ◌<◌, ◌≡◌, refl, String, Bool, true, false, ◌&&◌, Option, none, some, List, [],
  ◌∷◌, ◌++◌, if◌then◌else◌, arith,
}
use microagent.Prelude.Text.{str_eq}
use microagent.Broker.Llm.{ToolCall}
use microagent.Agent.Execute.{Callback}
use microagent.Tools.{Outcome}
use microagent.MainAgent.{
  Deps, RunEnd, ok_end, preempted_end, error_end, Iteration, slot_failed, executed, unfinished,
  Turn, Manifest, get_skill, visible, invoke_or_gate, is_ok, switch_skill, activate,
  parse_read_skill_name, keep_result, run_call, run_calls, callbacks_sent, assistant_message,
  after_run, next_iteration, turn_loop,
}

-- A property of a turn that the steps of its loop keep.
pub record IsKept (d : Deps) (P : Turn → Type 0) : Type 0 where
  pub keeps_failure : (t : Turn) → P t → P (record t { failed = true })
  pub keeps_skill :
      (t : Turn) (sid name : String) (skill : Option Manifest)
      → P t
      → P (switch_skill d sid name skill t)
  pub keeps_result :
      (t : Turn) (call : ToolCall) (output : String) → P t → P (keep_result call output t)
  pub keeps_run :
      (t : Turn) (content : String) (callbacks : List Callback)
      → P t
      → P (record t {
        final_content = content;
        published = t.published ++ callbacks_sent callbacks;
      })
  pub keeps_message :
      (t : Turn) (content : String) (calls : List ToolCall)
      → P t
      → P (record t { messages = t.messages ++ (assistant_message content calls ∷ []) })

-- One of the first `n` runs never returns.
abbrev pub NeverReturns : (ℕ → Iteration) → ℕ → Type 0
NeverReturns runs n =
    (i : ℕ) × (callbacks : List Callback) × (runs i ≡ unfinished callbacks) × (i < n)

module _ (d : Deps) (P : Turn → Type 0) (k : IsKept d P) where
  activate-keeps :
      (sid : String) (call : ToolCall) (outcome : Outcome) (t : Turn)
      → P t
      → P (activate d sid call outcome t)
  unfolding activate
  activate-keeps sid call outcome t h =
      either (str_eq call.name "read_skill" && is_ok outcome)
        (parse_read_skill_name d call.arguments)
    where
      either :
          (b : Bool) (o : Option String)
          → P (
              if b
              then elim o as (λ x. Turn) [
                | none ↦ t
                | some name ↦ switch_skill d sid name (get_skill name d.skills) t
              ]
              else t)
      either false o = h
      either true none = h
      either true (some name) = k.keeps_skill t sid name (get_skill name d.skills) h

  run_calls-keeps :
      (sid : String) (names : List String) (calls : List ToolCall) (t : Turn)
      → P t
      → P (run_calls d sid names calls t)
  unfolding run_calls run_call
  run_calls-keeps sid names [] t h = h
  run_calls-keeps sid names (c ∷ cs) t h =
      let (output, outcome) = invoke_or_gate d c names sid in
      run_calls-keeps sid names cs _
        (activate-keeps sid c outcome (keep_result c output t) (k.keeps_result t c output h))

  after_run-keeps :
      (sid content : String) (calls : List ToolCall) (callbacks : List Callback) (ending : RunEnd)
      (t : Turn)
      → P t
      → P (after_run d sid content calls callbacks ending t).1
  unfolding after_run
  after_run-keeps sid content calls callbacks preempted_end t h = k.keeps_run t content callbacks h
  after_run-keeps sid content calls callbacks error_end t h =
      k.keeps_failure _ (k.keeps_run t content callbacks h)
  after_run-keeps sid content [] callbacks ok_end t h = k.keeps_run t content callbacks h
  after_run-keeps sid content (c ∷ cs) callbacks ok_end t h =
      run_calls-keeps sid (visible d t.active_skill) (c ∷ cs) _
        (k.keeps_message _ content (c ∷ cs) (k.keeps_run t content callbacks h))

  pub turn_loop-keeps :
      (runs : ℕ → Iteration) (sid : String) (left iter : ℕ) (t : Turn)
      → P t
      → P (turn_loop d runs sid left iter t).1
  unfolding turn_loop
  turn_loop-keeps runs sid zero iter t h = h
  turn_loop-keeps runs sid (suc left) iter t h =
      by_run (runs iter) (λ u hu. turn_loop-keeps runs sid left (suc iter) u hu)
    where
      goes :
          (next : Bool × Turn)
          → ((u : Turn) → P u → P (turn_loop d runs sid left (suc iter) u).1)
          → P next.1
          → P (next_iteration iter (turn_loop d runs sid left (suc iter)) next).1
      goes (true, u) ih hu = ih u hu
      goes (false, u) ih hu = hu

      by_run :
          (run : Iteration)
          → ((u : Turn) → P u → P (turn_loop d runs sid left (suc iter) u).1)
          → P
              (elim run as (λ x. Option ℕ × Turn) [
                | slot_failed ↦ (some iter, record t { failed = true })
                | unfinished callbacks ↦
                    (none, record t { published = t.published ++ callbacks_sent callbacks })
                | executed content calls callbacks ending ↦
                    next_iteration iter
                      (turn_loop d runs sid left (suc iter))
                      (after_run d sid content calls callbacks ending t)
              ]).1
      by_run slot_failed ih = k.keeps_failure t h
      by_run (unfinished callbacks) ih = k.keeps_run t t.final_content callbacks h
      by_run (executed content calls callbacks ending) ih =
          goes (after_run d sid content calls callbacks ending t) ih
            (after_run-keeps sid content calls callbacks ending t h)

  -- The loop is left unless one of the runs that it reaches never returns.
  pub turn_loop-none :
      (runs : ℕ → Iteration) (sid : String) (left iter : ℕ) (t : Turn)
      → (turn_loop d runs sid left iter t).0 ≡ none
      → NeverReturns runs (iter + left)
  unfolding turn_loop
  turn_loop-none runs sid zero iter t h = absurd (cc)
  turn_loop-none runs sid (suc left) iter t h =
      by_run (runs iter) refl h (λ u q. turn_loop-none runs sid left (suc iter) u q)
    where
      goes :
          (next : Bool × Turn)
          → (next_iteration iter (turn_loop d runs sid left (suc iter)) next).0 ≡ none
          → ((u : Turn)
              → (turn_loop d runs sid left (suc iter) u).0 ≡ none
              → NeverReturns runs (suc iter + left))
          → NeverReturns runs (iter + suc left)
      goes (true, u) p ih = let (i, cs, r, l) = ih u p in (i, cs, r, omega (arith, l))
      goes (false, u) p ih = absurd (cc)

      by_run :
          (run : Iteration)
          → runs iter ≡ run
          → (elim run as (λ x. Option ℕ × Turn) [
            | slot_failed ↦ (some iter, record t { failed = true })
            | unfinished callbacks ↦
                (none, record t { published = t.published ++ callbacks_sent callbacks })
            | executed content calls callbacks ending ↦
                next_iteration iter
                  (turn_loop d runs sid left (suc iter))
                  (after_run d sid content calls callbacks ending t)
          ]).0
            ≡ none
          → ((u : Turn)
              → (turn_loop d runs sid left (suc iter) u).0 ≡ none
              → NeverReturns runs (suc iter + left))
          → NeverReturns runs (iter + suc left)
      by_run slot_failed e q ih = absurd (cc)
      by_run (unfinished callbacks) e q ih = (iter, callbacks, e, omega arith)
      by_run (executed content calls callbacks ending) e q ih =
          goes (after_run d sid content calls callbacks ending t) q ih
