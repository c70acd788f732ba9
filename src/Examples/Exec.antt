-- ===== src/Examples/Exec.antt =====
-- internal/exec on small directories.
use microagent.Prelude.{◌≡◌, refl, true, false, none, some, List, [], ◌∷◌, Any, arith}
use microagent.Prelude.Int.{pos}
use microagent.Exec.{
  Bytes, sanitize_session_id, sanitize_byte, contains_fold, match_at, fold_byte, sweep,
}
use microagent.Exec.Gc
use microagent.Exec.Gc.{
  Invocation, SessionDir, ended_at, absent, sweep_sessions, invocation_verdict,
}
use microagent.Exec.Sandbox.{Sandbox, EnsureEnv, Ensured, ready, sandbox_for, run_once}
use microagent.Exec.Sandbox.Touched.{IsTouched, run_once-sandbox_for}
use microagent.Exec.Gc.Kept.{Swept, run_once-Swept}

-- "../a"
abbrev up_a : Bytes
up_a = 46 ∷ 46 ∷ 47 ∷ 97 ∷ []

-- "___a"
sanitize_test : sanitize_session_id up_a ≡ 95 ∷ 95 ∷ 95 ∷ 97 ∷ []
unfolding sanitize_session_id sanitize_byte
sanitize_test = refl

-- "No SPACE" and "space"
abbrev shouted : Bytes
shouted = 78 ∷ 111 ∷ 32 ∷ 83 ∷ 80 ∷ 65 ∷ 67 ∷ 69 ∷ []

abbrev space : Bytes
space = 115 ∷ 112 ∷ 97 ∷ 99 ∷ 101 ∷ []

contains_test : contains_fold shouted space ≡ true
unfolding contains_fold match_at fold_byte
contains_test = refl

abbrev finished : Invocation
finished = record {
  name = 49 ∷ [];
  is_dir = true;
  metadata = ended_at (some 5);
  size = 3;
  removable = true;
}

abbrev running : Invocation
running = record finished { metadata = absent }

abbrev session : SessionDir
session = record {
  name = 115 ∷ [];
  is_dir = true;
  readable = true;
  removable = true;
  invocations = finished ∷ running ∷ [];
}

-- The finished workspace goes and the running one stays.
gc_test :
    (Gc.run_once true 100 (pos 50) 9 (session ∷ [])).1
    ≡ record session { invocations = running ∷ [] } ∷ []
unfolding Gc.run_once sweep_sessions sweep invocation_verdict
gc_test = refl

run_once-Swept_example :
    Swept 100 (pos 50) (session ∷ []) (Gc.run_once true 100 (pos 50) 9 (session ∷ [])).1
run_once-Swept_example = run_once-Swept true 100 (pos 50) 9 (session ∷ [])

-- The sandbox of "../a", which is new, beside an old one.
abbrev old_sandbox : Sandbox
old_sandbox = record {
  name = 98 ∷ [];
  is_dir = true;
  marker = some 3;
  modified = some 1;
  size = 4;
  removable = true;
}

abbrev all_made : EnsureEnv
all_made = record { mkdir_error = none; chtimes_ok = false; create_ok = true }

abbrev root : Bytes
root = 114 ∷ []

abbrev made : Ensured × List Sandbox
made = sandbox_for 90 all_made root up_a (old_sandbox ∷ [])

made_ready : made.0 ≡ ready (95 ∷ 95 ∷ 95 ∷ 97 ∷ [])
unfolding sandbox_for sanitize_session_id sanitize_byte
made_ready = refl

run_once-sandbox_for_example :
    ((95 ∷ 95 ∷ 95 ∷ 97 ∷ []) ≡ sanitize_session_id up_a)
    × Any (IsTouched (95 ∷ 95 ∷ 95 ∷ 97 ∷ []) 90) (run_once true 9 100 (pos 50) made.1).1
run_once-sandbox_for_example =
    run_once-sandbox_for 90 100 9 (pos 50) true all_made root up_a (95 ∷ 95 ∷ 95 ∷ 97 ∷ [])
      (old_sandbox ∷ []) made_ready (omega arith)
