-- ===== src/Response/Maps.antt =====
-- Redis as the response store uses it: maps from text keys, each a list of pairs with one entry for
-- each key. Nothing here is the repository's own code.
use microagent.Prelude.{
  Bool-cases, inl, inr, String, ◌≡◌, refl, Option, none, some, List, [], ◌∷◌, if◌then◌else◌, arith,
}
use microagent.Prelude.Text.{str_eq, eq_iff}

abbrev pub Map {ℓ} : Type ℓ → Type ℓ
Map V = List (String × V)

module _ {ℓ} {V : Type ℓ} where
  unfoldable pub lookup : String → Map V → Option V
  lookup key [] = none
  lookup key ((other, value) ∷ rest) = if str_eq other key then some value else lookup key rest

  unfoldable pub remove : String → Map V → Map V
  remove key [] = []
  remove key ((other, value) ∷ rest) =
      if str_eq other key then remove key rest else (other, value) ∷ remove key rest

  unfoldable pub remove_all : List String → Map V → Map V
  remove_all [] entries = entries
  remove_all (key ∷ keys) entries = remove_all keys (remove key entries)

  -- The new entry comes first; the entry that the key had is gone.
  unfoldable pub insert : String → V → Map V → Map V
  insert key value entries = (key, value) ∷ remove key entries

  pub lookup-remove :
      (key asked : String) (entries : Map V)
      → lookup asked (remove key entries)
        ≡ (if str_eq key asked then none else lookup asked entries)
  unfolding lookup remove
  lookup-remove key asked [] = ground arith
  lookup-remove key asked ((other, value) ∷ rest) =
      let induction = lookup-remove key asked rest in
      ground (arith, eq_iff key asked, eq_iff other key, eq_iff other asked)

  pub lookup-insert :
      (key asked : String) (value : V) (entries : Map V)
      → lookup asked (insert key value entries)
        ≡ (if str_eq key asked then some value else lookup asked entries)
  unfolding lookup insert
  lookup-insert key asked value entries = elim (Bool-cases (str_eq key asked)) [
    | inl same ↦ rw same refl
    | inr other ↦ rw (other, lookup-remove key asked entries, other) refl
  ]
