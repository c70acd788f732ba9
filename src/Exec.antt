-- ===== src/Exec.antt =====
-- internal/exec: the names of the session directories (workspace.go), the session sandboxes
-- (sandbox.go) and the collection of both kinds of directories (gc.go, sandbox.go).
-- A Go string is its list of bytes. A directory is a list of its entries; whether a system call
-- succeeds is a field of the entry or an argument. Times are nanoseconds.
pub mod Names
pub mod Sweep
pub mod Sandbox
pub mod Gc
use microagent.Prelude.{
  ℕ, zero, suc, ◌+◌, Bool, true, false, ◌&&◌, ◌||◌, ltb, leb, ◌==◌, List, [], ◌∷◌, map, length,
  if◌then◌else◌,
}

abbrev pub Bytes : Type 0
Bytes = List ℕ

abbrev pub anon : Bytes
anon = 97 ∷ 110 ∷ 111 ∷ 110 ∷ []

abbrev pub underscore : ℕ
underscore = 95

-- `/`, `\` and `.`, and then what is not a printable ASCII character.
unfoldable pub sanitize_byte : ℕ → ℕ
sanitize_byte c =
    if c == 47 || (c == 92 || c == 46)
    then underscore
    else if ltb c 32 || leb 127 c
    then underscore
    else c

abbrev pub anon_if_empty : Bytes → Bytes
anon_if_empty [] = anon
anon_if_empty (c ∷ cs) = c ∷ cs

unfoldable pub sanitize_session_id : Bytes → Bytes
sanitize_session_id [] = anon
sanitize_session_id (c ∷ cs) = anon_if_empty (map sanitize_byte (c ∷ cs))

-- `if a >= 'A' && a <= 'Z' { a += 32 }`
unfoldable pub fold_byte : ℕ → ℕ
fold_byte a = if leb 65 a && leb a 90 then a + 32 else a

-- The inner loop of `containsFold`. Its guard keeps the text at least as long as what is looked
-- for.
unfoldable pub match_at : Bytes → Bytes → Bool
match_at s [] = true
match_at [] (b ∷ bs) = false
match_at (a ∷ s) (b ∷ bs) =
    let rest = match_at s bs in if fold_byte a == fold_byte b then rest else false

-- The outer loop, at a text and then at each of its tails.
unfoldable pub contains_fold : Bytes → Bytes → Bool
contains_fold [] substr = leb (length substr) 0 && match_at [] substr
contains_fold (a ∷ s) substr =
    let rest = contains_fold s substr in
    if leb (length substr) (length (a ∷ s))
    then if match_at (a ∷ s) substr then true else rest
    else false

-- `GCStats` and `SandboxGCStats`
pub record GcStats : Type 0 where
  pub scanned : ℕ
  pub reclaimed : ℕ
  pub freed_bytes : ℕ

abbrev pub no_stats : GcStats
no_stats = record { scanned = 0; reclaimed = 0; freed_bytes = 0 }

-- What a sweep does with a directory entry: nothing, count it, or count it and take its bytes.
pub data Verdict : Type 0 where
  ignored scanned_only : Verdict
  reclaimed_bytes : ℕ → Verdict

abbrev pub count : Verdict → GcStats → GcStats
count ignored st = st
count scanned_only st = record st { scanned = st.scanned + 1 }
count (reclaimed_bytes size) st = record {
  scanned = st.scanned + 1;
  reclaimed = st.reclaimed + 1;
  freed_bytes = st.freed_bytes + size;
}

abbrev pub remains {ℓ} : {A : Type ℓ} → Verdict → A → List A → List A
remains ignored x xs = x ∷ xs
remains scanned_only x xs = x ∷ xs
remains (reclaimed_bytes size) x xs = xs

-- The loop over the entries of a directory, cancelled before the entry after the next `n`: its
-- counts, what is left of the directory, and how many entries more would have been looked at.
unfoldable pub sweep {ℓ} : {A : Type ℓ} → (A → Verdict) → ℕ → List A → GcStats × List A × ℕ
sweep verdict n [] = (no_stats, [], n)
sweep verdict zero (x ∷ xs) = (no_stats, x ∷ xs, 0)
sweep verdict (suc n) (x ∷ xs) =
    let (st, left, m) = sweep verdict n xs in (count (verdict x) st, remains (verdict x) x left, m)
