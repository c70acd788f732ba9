-- ===== src/Exec/Sandbox/Touched.antt =====
-- internal/exec/sandbox.go: what a collection takes, and sandboxes in use.
use microagent.Prelude.{
  ◌⊎◌, Option-cases, ℕ, zero, suc, ◌≡◌, refl, sym, ap, ◌∙◌, Bool, true, false, ◌||◌, ◌==◌, ==_iff,
  some, List, [], ◌∷◌, ◌++◌, take, arith, Any, here, there, Bool-cases, Option-cases, inl, inr,
  if◌then◌else◌,
}
use microagent.Prelude.Int.{ℤ, sub_ℕ, ltb_ℤ, ◌<ℤ◌}
use microagent.Exec.{
  Bytes, sanitize_session_id, Verdict, ignored, scanned_only, reclaimed_bytes, remains, sweep,
}
use microagent.Exec.Sweep.{survivors, totals, drop, sweep_lem}
use microagent.Exec.Sandbox.{
  Sandbox, EnsureEnv, SandboxError, workspace_full, allocate_failed, touch_failed, is_no_space,
  ready, refused, bytes_eq, make_dir, touch_last_access, sandbox_for, session_age, sandbox_verdict,
  run_once,
}

bytes_eq-eq : (cs bs : Bytes) → bytes_eq cs bs ≡ true → cs ≡ bs
unfolding bytes_eq
bytes_eq-eq [] [] h = refl
bytes_eq-eq [] (b ∷ bs) h = absurd (cc)
bytes_eq-eq (a ∷ cs) [] h = absurd (cc)
bytes_eq-eq (a ∷ cs) (b ∷ bs) h = elim (Bool-cases (a == b)) [
  | inl e ↦ cc ((==_iff a b).0 e, bytes_eq-eq cs bs (sym (rw e refl) ∙ h))
  | inr e ↦ absurd (let q : false ≡ true = sym (rw e refl) ∙ h in cc)
]

-- A sandbox of this name whose marker has this time.
pub record IsTouched (name : Bytes) (t : ℕ) (e : Sandbox) : Type 0 where
  pub same_name : e.name ≡ name
  pub marked : e.marker ≡ some t

bytes_eq_refl : (bs : Bytes) → bytes_eq bs bs ≡ true
unfolding bytes_eq
bytes_eq_refl [] = refl
bytes_eq_refl (b ∷ bs) = rw ((==_iff b b).1 refl) (bytes_eq_refl bs)

touch-make_dir :
    (now : ℕ) (name : Bytes) (es : List Sandbox)
    → Any (IsTouched name now) (touch_last_access now name (make_dir now name es))
unfolding touch_last_access make_dir
touch-make_dir now name [] =
    rw (bytes_eq_refl name) (here (record { same_name = refl; marked = refl }))
touch-make_dir now name (e ∷ es) = elim (Bool-cases (bytes_eq e.name name)) [
  | inl h ↦
      rw (h, touch_last_access, h)
        (here (record { same_name = bytes_eq-eq e.name name h; marked = refl }))
  | inr h ↦ rw (h, touch_last_access, h) (there (touch-make_dir now name es))
]

young : (a r : ℤ) → a <ℤ r → ltb_ℤ a r ≡ true
young a r h = ground arith

age_of_marker : (t now : ℕ) (e : Sandbox) → e.marker ≡ some t → session_age now e ≡ sub_ℕ now t
unfolding session_age
age_of_marker t now e h = rw (h, session_age) refl

sandbox_verdict_young :
    (now : ℕ) (retention : ℤ) (e : Sandbox)
    → ltb_ℤ (session_age now e) retention ≡ true
    → (xs : List Sandbox) → remains (sandbox_verdict now retention e) e xs ≡ e ∷ xs
unfolding sandbox_verdict session_age
sandbox_verdict_young now retention e q xs = elim (Bool-cases e.is_dir) [
  | inl d ↦ rw (d, q) refl
  | inr d ↦ rw d refl
]

spared :
    (t now : ℕ) (retention : ℤ) (name : Bytes) (e : Sandbox)
    → sub_ℕ now t <ℤ retention
    → IsTouched name t e
    → (xs : List Sandbox) → remains (sandbox_verdict now retention e) e xs ≡ e ∷ xs
spared t now retention name e h k xs =
    sandbox_verdict_young now retention e
      (rw (age_of_marker t now e k.marked) (young (sub_ℕ now t) retention h)) xs

there_remains {ℓ κ} :
    {A : Type ℓ} (P : A → Type κ) (v : Verdict) (x : A) (xs : List A)
    → Any P xs
    → Any P (remains v x xs)
there_remains P ignored x xs h = there h
there_remains P scanned_only x xs h = there h
there_remains P (reclaimed_bytes size) x xs h = h

sweep-Any {ℓ κ} :
    {A : Type ℓ} (verdict : A → Verdict) (P : A → Type κ)
    → ((x : A) → P x → (xs : List A) → remains (verdict x) x xs ≡ x ∷ xs)
    → (n : ℕ) (xs : List A) → Any P xs
    → Any P (sweep verdict n xs).1
unfolding sweep
sweep-Any verdict P keep zero [] h = elim h [ ]
sweep-Any verdict P keep (suc n) [] h = elim h [ ]
sweep-Any verdict P keep zero (x ∷ xs) h = h
sweep-Any verdict P keep (suc n) (x ∷ xs) (here p) = rw (keep x p (sweep verdict n xs).1) (here p)
sweep-Any verdict P keep (suc n) (x ∷ xs) (there h) =
    there_remains P (verdict x) x (sweep verdict n xs).1 (sweep-Any verdict P keep n xs h)

-- The three ways that a call with a root can end.
sandbox_for_cases :
    (t : ℕ) (env : EnsureEnv) (r : ℕ) (root session_id : Bytes) (es : List Sandbox)
    → ((e : SandboxError) × (left : List Sandbox) × (sandbox_for t env (r ∷ root) session_id es
          ≡ (refused e, left)))
      ⊎ (sandbox_for t env (r ∷ root) session_id es ≡ (
        ready (sanitize_session_id session_id),
        touch_last_access t
            (sanitize_session_id session_id)
            (make_dir t (sanitize_session_id session_id) es),
      ))
unfolding sandbox_for
sandbox_for_cases t env r root session_id es = elim (Option-cases env.mkdir_error) [
  | inr (err, e) ↦
      inl
        (if is_no_space err then workspace_full else allocate_failed, es, rw (e, sandbox_for) refl)
  | inl e ↦ elim (Bool-cases (env.chtimes_ok || env.create_ok)) [
    | inl q ↦ inr (rw (e, q, sandbox_for) refl)
    | inr q ↦
        inl (
          touch_failed,
          make_dir t (sanitize_session_id session_id) es,
          rw (e, q, sandbox_for) refl,
        )
  ]
]

sandbox_for-ready :
    (t : ℕ) (env : EnsureEnv) (root session_id name : Bytes) (es : List Sandbox)
    → (sandbox_for t env root session_id es).0 ≡ ready name
    → (name ≡ sanitize_session_id session_id)
      × ((sandbox_for t env root session_id es).1
          ≡ touch_last_access t
              (sanitize_session_id session_id)
              (make_dir t (sanitize_session_id session_id) es))
unfolding sandbox_for
sandbox_for-ready t env [] session_id name es h = absurd (cc)
sandbox_for-ready t env (r ∷ root) session_id name es h =
    elim (sandbox_for_cases t env r root session_id es) [
      | inl (e, left, q) ↦ absurd (cc)
      | inr q ↦ (cc, cc)
    ]

-- A session's sandbox that was handed out at time `t` under the sanitized session id is still there
-- after a collection that runs on what that left before the retention time has passed since then,
-- with any other sandboxes beside it, whether the root can be read or not, and wherever the
-- collection is cancelled: its directory keeps its name and the marker with time `t`.
pub run_once-sandbox_for :
    (t now n : ℕ) (retention : ℤ) (readable : Bool) (env : EnsureEnv) (root session_id name : Bytes)
    (es : List Sandbox)
    → (sandbox_for t env root session_id es).0 ≡ ready name
    → sub_ℕ now t <ℤ retention
    → (name ≡ sanitize_session_id session_id)
      × Any
          (IsTouched name t)
          (run_once readable n now retention (sandbox_for t env root session_id es).1).1
unfolding run_once
run_once-sandbox_for t now n retention readable env root session_id name es h young =
    let (same, made) = sandbox_for-ready t env root session_id name es h in
    let marked : Any (IsTouched name t) (sandbox_for t env root session_id es).1 =
      rw (made, ← same) (touch-make_dir t name es) in
    (
      same,
      elim (Bool-cases readable) [
        | inr e ↦ rw e marked
        | inl e ↦ rw e (
            sweep-Any (sandbox_verdict now retention) (IsTouched name t)
              (λ e k xs. spared t now retention name e young k xs) n
              (sandbox_for t env root session_id es).1 marked)
      ],
    )

-- A collection of a root that can be read, cancelled after `n` entries, looks at the first `n`
-- entries and leaves the others: it counts the directories among them, and removes and counts, with
-- their bytes, those of them that are not younger than the retention time and can be removed.
pub run_once_lem :
    (n now : ℕ) (retention : ℤ) (es : List Sandbox)
    → run_once true n now retention es ≡ (
      totals (sandbox_verdict now retention) (take n es),
      survivors (sandbox_verdict now retention) (take n es) ++ drop n es,
    )
unfolding run_once
run_once_lem n now retention es =
    ap (λ (st, left, m). (st, left)) (sweep_lem (sandbox_verdict now retention) n es)
