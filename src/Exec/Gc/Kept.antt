-- ===== src/Exec/Gc/Kept.antt =====
-- internal/exec/gc.go: what a collection takes.
use mathlib.Core.Path.{subst}
use microagent.Prelude.{
  ℕ, zero, suc, ◌≡◌, refl, Bool, true, false, ◌||◌, not, none, some, List, [], ◌∷◌, arith,
  Bool-cases, inl, inr,
}
use microagent.Prelude.Int.{ℤ, sub_ℕ, ltb_ℤ, ◌≤ℤ◌}
use microagent.Exec.{Verdict, reclaimed_bytes, remains, sweep}
use microagent.Exec.Gc.{
  Metadata, absent, malformed, ended_at, Invocation, SessionDir, verdict_of_age, invocation_verdict,
  close_session, sweep_sessions, run_once,
}

-- A workspace directory whose metadata says that it ended at least the retention time ago.
pub record IsExpired (now : ℕ) (retention : ℤ) (inv : Invocation) : Type 0 where
  pub dir : inv.is_dir ≡ true
  pub ended : ℕ
  pub finished : inv.metadata ≡ ended_at (some ended)
  pub old : retention ≤ℤ sub_ℕ now ended

module _ (now : ℕ) (retention : ℤ) where
  -- The second list is the first without some expired workspaces.
  pub data Thinned : List Invocation → List Invocation → Type 0 where
    all_kept : {xs : List Invocation} → Thinned xs xs
    kept : {x : Invocation} {xs ys : List Invocation} → Thinned xs ys → Thinned (x ∷ xs) (x ∷ ys)
    taken :
        {x : Invocation} {xs ys : List Invocation}
        → IsExpired now retention x
        → Thinned xs ys
        → Thinned (x ∷ xs) ys

  -- The second list of sessions is the first with thinned sessions, without some that are left
  -- empty.
  pub data Swept : List SessionDir → List SessionDir → Type 0 where
    untouched : {ss : List SessionDir} → Swept ss ss
    same : {s : SessionDir} {ss left : List SessionDir} → Swept ss left → Swept (s ∷ ss) (s ∷ left)
    thinned :
        {s : SessionDir} {ss left : List SessionDir} {invs : List Invocation}
        → Thinned s.invocations invs
        → Swept ss left
        → Swept (s ∷ ss) (record s { invocations = invs } ∷ left)
    removed :
        {s : SessionDir} {ss left : List SessionDir}
        → Thinned s.invocations []
        → Swept ss left
        → Swept (s ∷ ss) left

  pub data Judged (inv : Invocation) : Verdict → Type 0 where
    spared : {v : Verdict} → ((xs : List Invocation) → remains v inv xs ≡ inv ∷ xs) → Judged inv v
    expired : {size : ℕ} → IsExpired now retention inv → Judged inv (reclaimed_bytes size)

  Judged-age :
      (inv : Invocation) (t : ℕ)
      → inv.is_dir ≡ true
      → inv.metadata ≡ ended_at (some t)
      → (age : ℤ) → age ≡ sub_ℕ now t
      → Judged inv (verdict_of_age age retention inv)
  Judged-age inv t d m age e = elim (Bool-cases (ltb_ℤ age retention)) [
    | inl q ↦ rw q (spared (λ xs. refl))
    | inr q ↦ elim (Bool-cases inv.removable) [
      | inr r ↦ rw (q, r) (spared (λ xs. refl))
      | inl r ↦
          let old : retention ≤ℤ age = ground arith in
          rw (q, r)
            (expired (record {
              dir = d;
              ended = t;
              finished = m;
              old = subst (λ a. retention ≤ℤ a) e old;
            }))
    ]
  ]

  judge : (inv : Invocation) → Judged inv (invocation_verdict now retention inv)
  unfolding invocation_verdict
  judge inv = elim (Bool-cases inv.is_dir) [
    | inr d ↦ rw d (spared (λ xs. refl))
    | inl d ↦ with_metadata d inv.metadata refl
  ]
    where
      with_metadata :
          inv.is_dir ≡ true
          → (m : Metadata) → inv.metadata ≡ m
          → Judged inv (invocation_verdict now retention inv)
      with_metadata d absent e = rw (d, e) (spared (λ xs. refl))
      with_metadata d malformed e = rw (d, e) (spared (λ xs. refl))
      with_metadata d (ended_at none) e = rw (d, e) (spared (λ xs. refl))
      with_metadata d (ended_at (some t)) e = simp (d, e) (Judged-age inv t d e (sub_ℕ now t) refl)

  remains-Thinned :
      (x : Invocation) (xs ys : List Invocation) (v : Verdict)
      → Judged x v
      → Thinned xs ys
      → Thinned (x ∷ xs) (remains v x ys)
  remains-Thinned x xs ys v (spared k) h = rw (k ys) (kept h)
  remains-Thinned x xs ys _ (expired e) h = taken e h

  sweep-Thinned :
      (n : ℕ) (xs : List Invocation) → Thinned xs (sweep (invocation_verdict now retention) n xs).1
  unfolding sweep
  sweep-Thinned n [] = all_kept
  sweep-Thinned zero (x ∷ xs) = all_kept
  sweep-Thinned (suc n) (x ∷ xs) =
      remains-Thinned x xs (sweep (invocation_verdict now retention) n xs).1
        (invocation_verdict now retention x) (judge x) (sweep-Thinned n xs)

  close_session-Swept :
      (s : SessionDir) (invs : List Invocation) (ss left : List SessionDir)
      → Thinned s.invocations invs
      → Swept ss left
      → Swept (s ∷ ss) (close_session s invs left)
  close_session-Swept s [] ss left h k = elim (Bool-cases s.removable) [
    | inl r ↦ rw r (removed h k)
    | inr r ↦ rw r (thinned h k)
  ]
  close_session-Swept s (i ∷ is) ss left h k = thinned h k

  sweep_sessions-Swept :
      (n : ℕ) (ss : List SessionDir) → Swept ss (sweep_sessions now retention n ss).1
  unfolding sweep_sessions
  sweep_sessions-Swept n [] = untouched
  sweep_sessions-Swept zero (s ∷ ss) = untouched
  sweep_sessions-Swept (suc n) (s ∷ ss) = elim (Bool-cases (not s.is_dir || not s.readable)) [
    | inl e ↦ rw (e, sweep_sessions) (same (sweep_sessions-Swept n ss))
    | inr e ↦
        let m = (sweep (invocation_verdict now retention) n s.invocations).2 in
        rw (e, sweep_sessions)
          (close_session-Swept s _ ss (sweep_sessions now retention m ss).1
            (sweep-Thinned n s.invocations) (sweep_sessions-Swept m ss))
  ]

-- However a collection goes, wherever it is cancelled and whatever cannot be read or removed, each
-- session's directory keeps its entries but for workspaces whose metadata says that they ended, at
-- least the retention time ago, and only a session's directory without any entry left is removed.
pub run_once-Swept :
    (readable : Bool) (now : ℕ) (retention : ℤ) (n : ℕ) (ss : List SessionDir)
    → Swept now retention ss (run_once readable now retention n ss).1
unfolding run_once
run_once-Swept true now retention n ss = sweep_sessions-Swept now retention n ss
run_once-Swept false now retention n ss = untouched
