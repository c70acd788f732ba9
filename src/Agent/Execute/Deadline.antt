-- ===== src/Agent/Execute/Deadline.antt =====
-- `ExecuteWithCorrelation` of internal/agent/runtime.go: a preempted run ends.
use microagent.Prelude.{
  ℕ, ◌+◌, ◌≤◌, ◌<◌, ltb, Bool, true, false, ◌≡◌, ◌≢◌, refl, sym, Option, none, some, List, [], ◌∷◌,
  ◌++◌, append_assoc, subst, if◌then◌else◌, All, arith,
}
use microagent.Agent.Execute.{
  Read, no_message, passed_over, tool_call, token, Round, preempted, running, Progress, Run,
  add_token, add_call, arm, is_past, on_round, execute_loop,
}

stopped : preempted ≢ running
stopped e = absurd (cc)

ended_round :
    (past : Bool) (d : ℕ) (p : Progress) (read : Read) (next : Progress → Run)
    → ((q : Progress) → (next q).ended ≢ running)
    → (on_round past (some d) p read next).ended ≢ running
ended_round true d p read next h = λ e. absurd (cc)
ended_round false d p no_message next h = h p
ended_round false d p passed_over next h = h p
ended_round false d p (tool_call c) next h = h (add_call c p)
ended_round false d p (token t true) next h = λ e. absurd (cc)
ended_round false d p (token t false) next h = h (add_token t p)

-- An armed deadline that has passed at a round ends the run there at the latest.
deadline_ends :
    (timeout d : ℕ) (mid : List Round) (late : Round) (after : List Round) (p : Progress)
    → d < late.checked_at
    → (execute_loop timeout (some d) p (mid ++ (late ∷ after))).ended ≢ running
unfolding execute_loop arm
deadline_ends timeout d [] late after p lt =
    let q : ltb d late.checked_at ≡ true = ground (arith, lt) in
    subst
      (λ past.
        (on_round past (some d) p late.read (λ x. execute_loop timeout (some d) x after)).ended
        ≢ running)
      (sym q) stopped
deadline_ends timeout d (m ∷ mid) late after p lt =
    ended_round (ltb d m.checked_at) d p m.read _ (λ q. deadline_ends timeout d mid late after q lt)

-- A run that still waits before its deadline is armed passes every round to the next.
waiting_round :
    (past : Bool) (p : Progress) (read : Read) (next : Progress → Run)
    → ((q : Progress) → (next q).ended ≢ running)
    → past ≡ false
    → (on_round past none p read next).ended ≢ running
waiting_round true p read next h e = absurd (cc)
waiting_round false p no_message next h e = h p
waiting_round false p passed_over next h e = h p
waiting_round false p (tool_call c) next h e = h (add_call c p)
waiting_round false p (token t true) next h e = λ q. absurd (cc)
waiting_round false p (token t false) next h e = h (add_token t p)

-- A preempted run comes to its end: when the flag is up at a round, and a later round reads the
-- clock more than the time to finalize after that, then the run has ended by then, if the clock
-- does not run backwards.
pub execute_loop_ends :
    (timeout : ℕ) (p : Progress) (before mid after : List Round) (r late : Round)
    → r.flag ≡ true
    → All (λ (q : Round). q.armed_at ≤ r.armed_at) before
    → r.armed_at + timeout < late.checked_at
    → (execute_loop timeout none p (before ++ (r ∷ (mid ++ (late ∷ after))))).ended ≢ running
unfolding execute_loop arm
execute_loop_ends timeout p [] mid after r late f h lt =
    subst
      (λ flag. (armed r p (mid ++ (late ∷ after)) (if flag then some d else none)).ended ≢ running)
      (sym f)
      (ended_round (ltb d r.checked_at) d p r.read _
        (λ q. deadline_ends timeout d mid late after q lt))
  where
    d : ℕ
    d = r.armed_at + timeout

    armed : Round → Progress → List Round → Option ℕ → Run
    armed b q rounds o = on_round (is_past b o) o q b.read (λ z. execute_loop timeout o z rounds)
execute_loop_ends timeout p (b ∷ before) mid after r late f h lt =
    by_flag b.flag (λ q. execute_loop_ends timeout q before mid after r late f h.1 lt)
  where
    rounds : List Round
    rounds = before ++ (r ∷ (mid ++ (late ∷ after)))

    d : ℕ
    d = b.armed_at + timeout

    armed : Option ℕ → Run
    armed o = on_round (is_past b o) o p b.read (λ q. execute_loop timeout o q rounds)

    by_flag :
        (flag : Bool)
        → ((q : Progress) → (execute_loop timeout none q rounds).ended ≢ running)
        → (armed (if flag then some d else none)).ended ≢ running
    by_flag false ih = waiting_round false p b.read _ ih refl
    by_flag true ih =
        ended_round (ltb d b.checked_at) d p b.read (λ q. execute_loop timeout (some d) q rounds)
          (λ q.
            subst (λ rs. (execute_loop timeout (some d) q rs).ended ≢ running)
              (append_assoc before (r ∷ mid) (late ∷ after))
              (deadline_ends timeout d (before ++ (r ∷ mid)) late after q (omega (arith, h.0, lt))))
