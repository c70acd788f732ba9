-- ===== src/Exec/Names.antt =====
-- `sanitizeSessionID` and `containsFold` of internal/exec/workspace.go.
use mathlib.Core.Path.{subst}
use microagent.Prelude.{
  ℕ, suc, ◌≤◌, ◌<◌, ◌≡◌, ◌≢◌, ◌↔◌, refl, sym, ap, ◌∙◌, true, false, leb, ◌==◌, List, [], ◌∷◌, ◌++◌,
  map, length, length-append, arith, All, Bool-cases, ==_iff, inl, inr,
}
use microagent.Exec.{
  Bytes, anon, sanitize_byte, sanitize_session_id, fold_byte, match_at, contains_fold,
}

-- A printable ASCII character that is no `/`, no `\` and no `.`.
pub record IsSafe (c : ℕ) : Type 0 where
  pub printable : (32 ≤ c) × (c < 127)
  pub no_slash : c ≢ 47
  pub no_backslash : c ≢ 92
  pub no_dot : c ≢ 46

sanitize_byte-IsSafe : (c : ℕ) → IsSafe (sanitize_byte c)
unfolding sanitize_byte
sanitize_byte-IsSafe c = record {
  printable = (ground arith, ground arith);
  no_slash = λ e. ground arith;
  no_backslash = λ e. ground arith;
  no_dot = λ e. ground arith;
}

sanitize_byte_safe : (c : ℕ) → IsSafe c → sanitize_byte c ≡ c
unfolding sanitize_byte
sanitize_byte_safe c h =
    let a = h.printable in
    let b = h.no_slash in let d = h.no_backslash in let e = h.no_dot in ground arith

map-sanitize_byte-IsSafe : (cs : Bytes) → All IsSafe (map sanitize_byte cs)
map-sanitize_byte-IsSafe [] = tt
map-sanitize_byte-IsSafe (c ∷ cs) = (sanitize_byte-IsSafe c, map-sanitize_byte-IsSafe cs)

map-sanitize_byte_safe : (cs : Bytes) → All IsSafe cs → map sanitize_byte cs ≡ cs
map-sanitize_byte_safe [] h = refl
map-sanitize_byte_safe (c ∷ cs) h = cc (sanitize_byte_safe c h.0, map-sanitize_byte_safe cs h.1)

letter : (c : ℕ) → 96 < c → c < 127 → IsSafe c
letter c h k = record {
  printable = (omega (arith, h), k);
  no_slash = λ e. omega (arith, h, e);
  no_backslash = λ e. omega (arith, h, e);
  no_dot = λ e. omega (arith, h, e);
}

anon-IsSafe : All IsSafe anon
anon-IsSafe = (
  letter 97 (omega arith) (omega arith),
  (
    letter 110 (omega arith) (omega arith),
    (letter 111 (omega arith) (omega arith), (letter 110 (omega arith) (omega arith), tt)),
  ),
)

-- A sanitized session id is never empty and has only printable ASCII characters other than `/`, `\`
-- and `.`, so it is one path component and neither `.` nor `..`; an id that is not empty and of
-- such characters is kept as it is; and sanitizing twice is sanitizing once.
pub sanitize_session_id_lem :
    (s : Bytes)
    → (sanitize_session_id s ≢ [])
      × All IsSafe (sanitize_session_id s)
      × (s ≢ [] → All IsSafe s → sanitize_session_id s ≡ s)
      × (sanitize_session_id (sanitize_session_id s) ≡ sanitize_session_id s)
unfolding sanitize_session_id
sanitize_session_id_lem [] =
    (λ e. absurd (cc), anon-IsSafe, λ h k. absurd (h refl), map-sanitize_byte_safe anon anon-IsSafe)
sanitize_session_id_lem (c ∷ cs) =
    let safe = map-sanitize_byte-IsSafe (c ∷ cs) in
    (
      (λ e. absurd (cc)),
      safe,
      (λ h k. map-sanitize_byte_safe (c ∷ cs) k),
      map-sanitize_byte_safe (map sanitize_byte (c ∷ cs)) safe,
    )

-- A stretch of a text that is the substring but for the case of ASCII letters.
pub record Occurs (s substr : Bytes) : Type 0 where
  pub before : Bytes
  pub found : Bytes
  pub after : Bytes
  pub split : s ≡ before ++ (found ++ after)
  pub same : map fold_byte found ≡ map fold_byte substr

match_at_sound :
    (s substr : Bytes)
    → match_at s substr ≡ true
    → (found after : Bytes) × (s ≡ found ++ after) × (map fold_byte found ≡ map fold_byte substr)
unfolding match_at
match_at_sound s [] h = ([], s, refl, refl)
match_at_sound [] (b ∷ bs) h = absurd (cc)
match_at_sound (a ∷ s) (b ∷ bs) h = elim (Bool-cases (fold_byte a == fold_byte b)) [
  | inr e ↦ absurd (let q : false ≡ true = sym (rw e refl) ∙ h in cc)
  | inl e ↦
      let (found, after, p, q) = match_at_sound s bs (sym (rw e refl) ∙ h) in
      (a ∷ found, after, ap (a ∷◌) p, cc ((==_iff (fold_byte a) (fold_byte b)).0 e, q))
]

match_at_complete :
    (found after substr : Bytes)
    → map fold_byte found ≡ map fold_byte substr
    → match_at (found ++ after) substr ≡ true
unfolding match_at
match_at_complete found after [] h = refl
match_at_complete [] after (b ∷ bs) h = absurd (cc)
match_at_complete (a ∷ found) after (b ∷ bs) h =
    let e : fold_byte a ≡ fold_byte b = cc in
    let t : map fold_byte found ≡ map fold_byte bs = cc in
    rw ((==_iff (fold_byte a) (fold_byte b)).1 e) (match_at_complete found after bs t)

map-length :
    {A B : Type 0} (f : A → B) (xs ys : List A) → map f xs ≡ map f ys → length xs ≡ length ys
map-length f [] [] h = refl
map-length f [] (y ∷ ys) h = absurd (cc)
map-length f (x ∷ xs) [] h = absurd (cc)
map-length f (x ∷ xs) (y ∷ ys) h = ap suc (map-length f xs ys (cc))

fits :
    (found after substr : Bytes)
    → map fold_byte found ≡ map fold_byte substr
    → leb (length substr) (length (found ++ after)) ≡ true
fits found after substr h =
    let l = length-append found after in let k = map-length fold_byte found substr h in ground arith

contains_fold_sound : (s substr : Bytes) → contains_fold s substr ≡ true → Occurs s substr
unfolding contains_fold match_at
contains_fold_sound [] [] h = record {
  before = [];
  found = [];
  after = [];
  split = refl;
  same = refl;
}
contains_fold_sound [] (b ∷ bs) h = absurd (ground arith)
contains_fold_sound (a ∷ s) substr h = elim (Bool-cases (leb (length substr) (length (a ∷ s)))) [
  | inr e ↦ absurd (let q : false ≡ true = sym (rw e refl) ∙ h in cc)
  | inl e ↦ elim (Bool-cases (match_at (a ∷ s) substr)) [
    | inl m ↦
        let (found, after, p, q) = match_at_sound (a ∷ s) substr m in
        record { before = []; found = found; after = after; split = p; same = q }
    | inr m ↦
        let o = contains_fold_sound s substr (sym (rw (e, m) refl) ∙ h) in
        record {
          before = a ∷ o.before;
          found = o.found;
          after = o.after;
          split = ap (a ∷◌) o.split;
          same = o.same;
        }
  ]
]

contains_here :
    (s substr : Bytes)
    → leb (length substr) (length s) ≡ true
    → match_at s substr ≡ true
    → contains_fold s substr ≡ true
unfolding contains_fold
contains_here [] substr h m = rw (h, m) refl
contains_here (a ∷ s) substr h m = rw (h, m) refl

contains_later :
    (a : ℕ) (s substr : Bytes)
    → leb (length substr) (length s) ≡ true
    → contains_fold s substr ≡ true
    → contains_fold (a ∷ s) substr ≡ true
unfolding contains_fold
contains_later a s substr h e =
    let k : leb (length substr) (length (a ∷ s)) ≡ true = ground arith in
    elim (Bool-cases (match_at (a ∷ s) substr)) [
      | inl m ↦ rw (k, m) refl
      | inr m ↦ rw (k, m, e) refl
    ]

longer :
    (before rest substr : Bytes)
    → leb (length substr) (length rest) ≡ true
    → leb (length substr) (length (before ++ rest)) ≡ true
longer before rest substr h = let l = length-append before rest in ground arith

contains_fold_complete :
    (before found after substr : Bytes)
    → map fold_byte found ≡ map fold_byte substr
    → contains_fold (before ++ (found ++ after)) substr ≡ true
contains_fold_complete [] found after substr h =
    contains_here (found ++ after) substr (fits found after substr h)
      (match_at_complete found after substr h)
contains_fold_complete (b ∷ before) found after substr h =
    contains_later b (before ++ (found ++ after)) substr
      (longer before (found ++ after) substr (fits found after substr h))
      (contains_fold_complete before found after substr h)

-- The case-insensitive search says yes exactly when the text has a stretch that is the substring
-- but for the case of ASCII letters.
pub contains_fold_iff : (s substr : Bytes) → (contains_fold s substr ≡ true) ↔ Occurs s substr
contains_fold_iff s substr = (
  contains_fold_sound s substr,
  λ o.
      subst (λ x. contains_fold x substr ≡ true) (sym o.split)
        (contains_fold_complete o.before o.found o.after substr o.same),
)
