-- ===== src/Gateway/Stored.antt =====
-- internal/gateway/responses.go: what the client is shown of a turn, and what the turn leaves in
-- the store at its end.
use microagent.Prelude.{
  ℕ, zero, suc, String, Bool, true, false, ◌≡◌, refl, ap, ◌∙◌, Option, none, some, List, [], ◌∷◌,
  ◌++◌, map, if◌then◌else◌, All, Bool-cases, Option-cases, inl, inr,
}
use microagent.Prelude.Text.{str_eq, eq_refl}
use microagent.Response.{
  Response, Store, Failure, Codec, save, save_pipeline, session_ids, last, lookup-insert, fields_of,
}
use microagent.Response.Content.{
  InputItem, OutputItem, parts, flatten_content, hash_role, output_item_to_input_item,
}
use microagent.Response.Content.Canonical.{turns}
use microagent.Gateway.{
  Env, World, Turn, complete_turn, index_saved, response_of, current_turn_input,
  publish_turn_completed, is_tool_item, client_facing_output,
}

-- An item of the trace of the tools has no text.
abbrev pub Silent : OutputItem → Type 0
Silent it = is_tool_item it ≡ true → flatten_content (parts it.content) ≡ ""

module _ (to_lower : String → String) where
  abbrev turns_after : InputItem → List (String × String) → List (String × String)
  turns_after x ts =
      if str_eq (flatten_content x.content) ""
      then ts
      else (hash_role to_lower x.role, flatten_content x.content) ∷ ts

  turns_after-append :
      (x : InputItem) (ts us : List (String × String))
      → turns_after x (ts ++ us) ≡ turns_after x ts ++ us
  turns_after-append x ts us = elim (Bool-cases (str_eq (flatten_content x.content) "")) [
    | inl e ↦ rw e refl
    | inr e ↦ rw e refl
  ]

  pub turns-append :
      (xs ys : List InputItem) → turns to_lower (xs ++ ys) ≡ turns to_lower xs ++ turns to_lower ys
  turns-append [] ys = refl
  turns-append (x ∷ xs) ys =
      ap (turns_after x) (turns-append xs ys)
      ∙ turns_after-append x (turns to_lower xs) (turns to_lower ys)

  -- What the client is shown has the turns of what is stored.
  pub turns-client_facing_output :
      (outs : List OutputItem)
      → All Silent outs
      → turns to_lower (map output_item_to_input_item (client_facing_output outs))
        ≡ turns to_lower (map output_item_to_input_item outs)
  unfolding client_facing_output output_item_to_input_item
  turns-client_facing_output [] h = refl
  turns-client_facing_output (it ∷ outs) h =
      let ih = turns-client_facing_output outs h.1 in
      elim (Bool-cases (is_tool_item it)) [
        | inl e ↦ rw (e, h.0 e) ih
        | inr e ↦ rw e (ap (turns_after (output_item_to_input_item it)) ih)
      ]

-- A pipeline without an error.
pub save_pipeline-none :
    (n : ℕ) (r : Response) (s : Store) (new : List (String × String))
    → (save_pipeline n r new s).0 ≡ none
    → session_ids r.session_id (save_pipeline n r new s).1
      ≡ session_ids r.session_id s ++ (r.id ∷ [])
unfolding save_pipeline
save_pipeline-none zero r s new e = absurd (cc)
save_pipeline-none (suc zero) r s new e = absurd (cc)
save_pipeline-none (suc (suc n)) r s new e =
    rw
      (
        lookup-insert r.session_id r.session_id (session_ids r.session_id s ++ (r.id ∷ []))
            s.sessions,
        eq_refl r.session_id,
      )
      refl

pub save-none :
    (json : Codec) (n : ℕ) (r : Response) (s : Store)
    → (save json n r s).0 ≡ none
    → session_ids r.session_id (save json n r s).1 ≡ session_ids r.session_id s ++ (r.id ∷ [])
unfolding save
save-none json n r s = elim (Option-cases (json.encode_input r.input)) [
  | inl p ↦ rw (p, save) (λ e. absurd (cc))
  | inr (i, p) ↦ elim (Option-cases (json.encode_output r.output)) [
    | inl q ↦ rw (p, q, save) (λ e. absurd (cc))
    | inr (o, q) ↦ rw (p, q, save) (save_pipeline-none n r s (fields_of r i o))
  ]
]

pub last-append : (ids : List String) (id : String) → last (ids ++ (id ∷ [])) ≡ some id
unfolding last
last-append [] id = refl
last-append (x ∷ []) id = refl
last-append (x ∷ y ∷ ids) id = last-append (y ∷ ids) id

pub publish_turn_completed-store :
    (env : Env) (sid : String) (w : World) → (publish_turn_completed env sid w).store ≡ w.store
unfolding publish_turn_completed
publish_turn_completed-store env sid w = kept env.announced
  where
    kept :
        (b : Bool)
        → (if b then record w { turns_completed = w.turns_completed ++ (sid ∷ []) } else w).store
          ≡ w.store
    kept true = refl
    kept false = refl

-- What `Save` comes to at the end of a turn.
abbrev pub save_turn : Env → Turn → List OutputItem → World → Option Failure × Store
save_turn env t outs w =
    save env.json env.saved_commands (response_of env t (current_turn_input t.input_items) outs)
      w.store

pub complete_turn-store :
    (env : Env) (t : Turn) (outs : List OutputItem) (w : World)
    → t.store ≡ true
    → (complete_turn env t outs w).store ≡ index_saved env t outs (save_turn env t outs w)
unfolding complete_turn
complete_turn-store env t outs w e =
    publish_turn_completed-store env t.session_id _
    ∙ ap (λ b. if b then index_saved env t outs (save_turn env t outs w) else w.store) e
