-- ===== src/Tools/Visible.antt =====
-- internal/tools/tool.go and cmd/main-agent/main.go: the tools that the model sees and those it may
-- call.
use microagent.Prelude.{
  String, Bool, true, false, ◌≡◌, refl, sym, ap, ◌∙◌, Option, none, some, List, [], ◌∷◌, ◌++◌, map,
  ◌||◌, ◌&&◌, if◌then◌else◌, Bool-cases, inl, inr, arith,
}
use microagent.Prelude.Text.{str_eq, eq_iff}
use microagent.Response.{is_seen}
use microagent.Tools.{Tool, Registry, find_tool, has, registered, visible_set, schemas_for}

abbrev pub names : List Tool → List String
names ts = map (λ (t : Tool). t.name) ts

is_seen-append :
    (n : String) (xs ys : List String) → is_seen n (xs ++ ys) ≡ (is_seen n xs || is_seen n ys)
unfolding is_seen
is_seen-append n [] ys = refl
is_seen-append n (x ∷ xs) ys = ground (arith, is_seen-append n xs ys)

is_seen_if :
    (n m : String) (b : Bool) (xs : List String)
    → is_seen n (if b then m ∷ xs else xs) ≡ ((b && str_eq m n) || is_seen n xs)
unfolding is_seen
is_seen_if n m true xs = refl
is_seen_if n m false xs = refl

-- The same name has the same tool.
has_same : (n m : String) (r : Registry) → (has m r && str_eq m n) ≡ (has n r && str_eq m n)
has_same n m r = elim (Bool-cases (str_eq m n)) [
  | inl same ↦ ap (λ k. has k r && str_eq m n) ((eq_iff m n).0 same)
  | inr other ↦ ground (arith, other)
]

is_seen-registered :
    (n : String) (r : Registry) (ns : List String)
    → is_seen n (registered r ns) ≡ (has n r && is_seen n ns)
unfolding is_seen registered
is_seen-registered n r [] = ground arith
is_seen-registered n r (m ∷ ns) =
    let p = is_seen_if n m (has m r) (registered r ns) in
    let q = has_same n m r in let ih = is_seen-registered n r ns in p ∙ (ground (arith, q, ih))

names_if :
    (b : Bool) (t : Tool) (ts : List Tool)
    → names (if b then t ∷ ts else ts) ≡ (if b then t.name ∷ names ts else names ts)
names_if true t ts = refl
names_if false t ts = refl

has_cons : (n : String) (t : Tool) (ts : List Tool) → has n (t ∷ ts) ≡ (str_eq t.name n || has n ts)
unfolding has find_tool
has_cons n t ts = either (str_eq t.name n) (find_tool n ts)
  where
    is_some : Option Tool → Bool
    is_some o = elim o [ none ↦ false | some u ↦ true ]

    either : (b : Bool) (o : Option Tool) → is_some (if b then some t else o) ≡ (b || is_some o)
    either true o = refl
    either false o = refl

joins :
    (shown same below had visible : Bool)
    → (shown && same) ≡ (visible && same)
    → below ≡ (had && visible)
    → ((shown && same) || below) ≡ ((same || had) && visible)
joins shown same below had visible p q = ground (arith, p, q)

is_seen_same :
    (n m : String) (ns : List String) → (is_seen m ns && str_eq m n) ≡ (is_seen n ns && str_eq m n)
is_seen_same n m ns = elim (Bool-cases (str_eq m n)) [
  | inl same ↦ ap (λ k. is_seen k ns && str_eq m n) ((eq_iff m n).0 same)
  | inr other ↦ ground (arith, other)
]

has_none : (n : String) (b : Bool) → false ≡ (has n [] && b)
unfolding has find_tool
has_none n b = refl

is_seen-schemas_for :
    (n : String) (base allowed : List String) (r : Registry)
    → is_seen n (names (schemas_for base allowed r)) ≡ (has n r && is_seen n (base ++ allowed))
unfolding schemas_for is_seen
is_seen-schemas_for n base allowed [] = has_none n (is_seen n (base ++ allowed))
is_seen-schemas_for n base allowed (t ∷ ts) =
    let visible = base ++ allowed in
    let shown = is_seen t.name visible in
    let rest = schemas_for base allowed ts in
    let p = is_seen_if n t.name shown (names rest) in
    let q = is_seen_same n t.name visible in
    let ih = is_seen-schemas_for n base allowed ts in
    let h = has_cons n t ts in
    ap (is_seen n) (names_if shown t rest)
    ∙ p
    ∙ joins shown (str_eq t.name n) (is_seen n (names rest)) (has n ts) (is_seen n visible) q ih
    ∙ ap (◌&& is_seen n visible) (sym h)

-- A name is one that the model may call exactly if a tool of that name is among those whose schemas
-- the model is shown.
pub visible_set-schemas_for :
    (n : String) (base allowed : List String) (r : Registry)
    → is_seen n (visible_set r base allowed) ≡ is_seen n (names (schemas_for base allowed r))
unfolding visible_set
visible_set-schemas_for n base allowed r =
    let p = is_seen-append n (registered r base) (registered r allowed) in
    let q = is_seen-append n base allowed in
    let s = is_seen-schemas_for n base allowed r in
    let u = is_seen-registered n r base in
    let v = is_seen-registered n r allowed in ground (arith, p, q, s, u, v)
