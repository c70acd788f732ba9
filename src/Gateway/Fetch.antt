-- ===== src/Gateway/Fetch.antt =====
-- `handleGetResponse` of internal/gateway/responses.go after a turn.
use microagent.Prelude.{
  ℕ, suc, String, Bool, true, false, ◌≡◌, refl, ap, ◌∙◌, Option, none, some, List, if◌then◌else◌,
}
use microagent.Response.{
  Store, Failure, ok, get, save, response_key, session_hash_key, insert, redis_error,
}
use microagent.Response.Content.{OutputItem}
use microagent.Response.Session.{store_session_prefix_hash}
use microagent.Response.Turns.{Documents, get-save}
use microagent.Gateway.{
  ResponsesResponse, Env, World, Turn, complete_turn, index_saved, write_stitch_index, response_of,
  current_turn_input,
}
use microagent.Gateway.Reply.{Answer}
use microagent.Gateway.Create.{handle_get_response, fetched}
use microagent.Gateway.Stored.{complete_turn-store, save_turn}
use microagent.Gateway.Stitch.{turn_hash}

get-index_saved :
    (env : Env) (t : Turn) (outs : List OutputItem) (o : Option Failure) (s : Store) (id : String)
    → get env.up env.json id (index_saved env t outs (o, s)) ≡ get env.up env.json id s
unfolding get write_stitch_index store_session_prefix_hash
get-index_saved env t outs none s id =
    either (env.up (session_hash_key (turn_hash env t outs)))
      (insert (turn_hash env t outs) t.session_id s.session_hashes)
  where
    either :
        (b : Bool) (hashes : List (String × String))
        → let done : Option Failure × Store = (none, record s { session_hashes = hashes }) in
          let undone : Option Failure × Store = (some redis_error, s) in
          get env.up env.json id (if b then done else undone).1 ≡ get env.up env.json id s
    either true hashes = refl
    either false hashes = refl
get-index_saved env t outs (some e) s id = refl

-- The response of a stored turn is served under its id with everything that was stored as its
-- output, so with the calls of the tools and their results, with the turn's session, previous
-- response and model, and as completed, when the store saves the turn, the response's key can be
-- read, and its JSON documents are not empty and decode to what they were made from.
pub handle_get_response-complete_turn :
    (parse : String → Option ℕ) (env : Env) (t : Turn) (outs : List OutputItem) (w : World) (n : ℕ)
    (i o : String)
    → t.store ≡ true
    → env.saved_commands ≡ suc (suc n)
    → env.up (response_key env.response_id) ≡ true
    → Documents env.json (response_of env t (current_turn_input t.input_items) outs) i o
    → (b : ResponsesResponse) × (handle_get_response parse env env.response_id
          (complete_turn env t outs w).store
        ≡ Answer.body b)
      × (b.id ≡ env.response_id)
      × (b.output ≡ outs)
      × (b.session_id ≡ t.session_id)
      × (b.previous_response_id ≡ t.previous_response_id)
      × (b.model ≡ t.model)
      × (b.status ≡ "completed")
unfolding handle_get_response
handle_get_response-complete_turn parse env t outs w n i o st en up d =
    let r = response_of env t (current_turn_input t.input_items) outs in
    let stored = (get-save env.up env.json n r w.store i o up d).1 in
    let read : get env.up env.json env.response_id (complete_turn env t outs w).store
        ≡ ok (some r) =
      ap (get env.up env.json env.response_id) (complete_turn-store env t outs w st)
      ∙ get-index_saved env t outs (save_turn env t outs w).0 (save_turn env t outs w).1
          env.response_id
      ∙ ap (λ k. get env.up env.json env.response_id (save env.json k r w.store).1) en
      ∙ stored in
    (fetched parse env r, rw (read, handle_get_response) refl, refl, refl, refl, refl, refl, refl)
