-- ===== src/Response/Session/Delete.antt =====
-- `DeleteSession` of internal/response/store.go: what is gone and what stays.
use microagent.Prelude.{
  ℕ, String, ◌≡◌, ◌≢◌, refl, ◌∙◌, Bool, true, false, none, List, [], ◌∷◌, arith, Bool-cases, inl,
  inr, if◌then◌else◌,
}
use microagent.Prelude.Text.{str_eq, eq_iff, eq_refl}
use microagent.Response.{
  Store, ok, Codec, is_seen, get, lookup, remove, remove_all, lookup-remove, response_key,
  session_responses_key, session_ids,
}
use microagent.Response.Session.{read_all, get_session_history, session_exists, delete_session}

lookup-remove_all {ℓ} :
    {V : Type ℓ} (j : String) (ks : List String) (m : List (String × V))
    → lookup j (remove_all ks m) ≡ (if is_seen j ks then none else lookup j m)
unfolding remove_all is_seen
lookup-remove_all j [] m = refl
lookup-remove_all j (k ∷ ks) m =
    lookup-remove_all j ks (remove k m) ∙ (elim (Bool-cases (is_seen j ks)) [
      | inl e ↦ elim (Bool-cases (str_eq k j)) [ inl q ↦ rw (e, q) refl | inr q ↦ rw (e, q) refl ]
      | inr e ↦ elim (Bool-cases (str_eq k j)) [
        | inl q ↦ rw (e, lookup-remove k j m, q) refl
        | inr q ↦ rw (e, lookup-remove k j m, q) refl
      ]
    ])

-- The deletion of a session whose list can be read, carried out in full: no error; the session does
-- not exist any more and has no history; a response that it listed is not found (if its key can be
-- read); a response that it did not list is read as before; the lists of other sessions stay.
pub delete_session_lem :
    (up : String → Bool) (json : Codec) (n : ℕ) (sid : String) (s : Store)
    → up (session_responses_key sid) ≡ true
    → (after : Store) × (delete_session up true n sid s ≡ (none, after))
      × (session_exists up sid after ≡ ok false)
      × (get_session_history up json sid after ≡ ok [])
      × ((id : String)
          → is_seen id (session_ids sid s) ≡ true
          → up (response_key id) ≡ true
          → get up json id after ≡ ok none)
      × ((id : String)
          → is_seen id (session_ids sid s) ≡ false
          → get up json id after ≡ get up json id s)
      × ((other : String) → sid ≢ other → session_ids other after ≡ session_ids other s)
unfolding get delete_session session_exists get_session_history read_all
delete_session_lem up json n sid s q =
    let gone : lookup sid (remove sid s.sessions) ≡ none =
      rw (lookup-remove sid sid s.sessions, eq_refl sid) refl in
    (
      record s {
        responses = remove_all (session_ids sid s) s.responses;
        sessions = remove sid s.sessions;
      },
      rw (q, delete_session) refl,
      rw (q, gone) refl,
      rw (q, gone) refl,
      (λ id h u. rw (u, lookup-remove_all id (session_ids sid s) s.responses, h) refl),
      (λ id h. rw (lookup-remove_all id (session_ids sid s) s.responses, h) refl),
      λ other ne.
          let d : str_eq sid other ≡ false = ground (arith, eq_iff sid other) in
          rw (lookup-remove sid other s.sessions, d) refl,
    )
