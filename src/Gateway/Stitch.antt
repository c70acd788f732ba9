-- ===== src/Gateway/Stitch.antt =====
-- `decideSession` of internal/gateway/responses.go after a turn: a client that replays the
-- conversation finds its session again.
use microagent.Prelude.{
  ◌-◌, ◌<◌, String, true, ◌≡◌, refl, sym, ap, ◌∙◌, Option, none, some, List, [], ◌∷◌, ◌++◌, map,
  if◌then◌else◌, length, take, take-append, length-append, All, ltb, arith,
}
use microagent.Prelude.Text.{eq_refl}
use microagent.Response.{
  Store, Failure, redis_error, session_ids, session_hash_key, session_responses_key, lookup, insert,
  lookup-insert,
}
use microagent.Response.Content.{
  InputItem, OutputItem, flatten_content, flatten_parts, canonical, stitch_hash,
  output_item_to_input_item,
}
use microagent.Response.Content.Canonical.{turns, canonical-turns}
use microagent.Response.Session.{
  get_last_response_id, lookup_session_by_prefix_hash, store_session_prefix_hash,
}
use microagent.Broker.Llm.{ToolCall}
use microagent.Gateway.{
  Env, World, Turn, decided, decide_session, stitch, hash_of, complete_turn, index_saved,
  write_stitch_index, client_facing_output, text_to_output_items,
}
use microagent.Gateway.Reply.{
  ChatResponse, reply, output_items, interleave, call_items, result_by_call_id,
  handle_responses_non_streaming,
}
use microagent.Gateway.Stored.{
  Silent, turns-append, turns-client_facing_output, save-none, last-append, save_turn,
  complete_turn-store,
}

-- The hash that a turn is indexed under.
abbrev pub turn_hash : Env → Turn → List OutputItem → String
turn_hash env t outs = hash_of env (t.input_items ++ map output_item_to_input_item outs)

indexed :
    (env : Env) (t : Turn) (outs : List OutputItem) (o : Option Failure) (s : Store)
    → o ≡ none
    → env.up (session_hash_key (turn_hash env t outs)) ≡ true
    → index_saved env t outs (o, s)
      ≡ record s { session_hashes = insert (turn_hash env t outs) t.session_id s.session_hashes }
unfolding write_stitch_index store_session_prefix_hash
indexed env t outs none s e q =
    let new : Store = record s {
      session_hashes = insert (turn_hash env t outs) t.session_id s.session_hashes;
    } in
    let answer : Option Failure × Store = (none, new) in
    let refusal : Option Failure × Store = (some redis_error, s) in
    ap (λ b. (if b then answer else refusal).1) q
indexed env t outs (some f) s e q = absurd (cc)

-- `inputItems[:len(inputItems)-1]`
but_last :
    (its : List InputItem) (new : InputItem)
    → take (length (its ++ (new ∷ [])) - 1) (its ++ (new ∷ [])) ≡ its
but_last its new =
    let size : length (its ++ (new ∷ [])) - 1 ≡ length its =
      omega (arith, length-append its (new ∷ [])) in
    ap (λ n. take n (its ++ (new ∷ []))) size ∙ take-append its (new ∷ [])

more_than_one :
    (its : List InputItem) (new : InputItem)
    → 0 < length its
    → ltb 1 (length (its ++ (new ∷ []))) ≡ true
more_than_one its new h = ground (arith, length-append its (new ∷ []))

-- A session that the hash of a replay finds.
found :
    (next : Env) (s : Store) (hash sid id : String) (ids : List String)
    → next.up (session_hash_key hash) ≡ true
    → next.up (session_responses_key sid) ≡ true
    → lookup hash s.session_hashes ≡ some sid
    → session_ids sid s ≡ ids ++ (id ∷ [])
    → stitch next s hash (lookup_session_by_prefix_hash next.up hash s)
      ≡ decided (record {
        session_id = sid;
        effective_prev_resp_id = id;
        stitch_prefix_hash = hash;
        stitched = true;
      })
unfolding lookup_session_by_prefix_hash get_last_response_id
found next s hash sid id ids uh us e l = rw (uh, e, us, l, last-append ids id) refl

decide_session_replay :
    (next : Env) (s : Store) (replay : List InputItem) (new : InputItem)
    → 0 < length replay
    → decide_session next s "" true (replay ++ (new ∷ []))
      ≡ stitch next s
          (hash_of next replay)
          (lookup_session_by_prefix_hash next.up (hash_of next replay) s)
unfolding decide_session
decide_session_replay next s replay new h =
    rw (more_than_one replay new h, but_last replay new) refl

-- The same for any output whose trace is silent.
pub stitched_turn :
    (env next : Env) (t : Turn) (outs : List OutputItem) (w : World) (replay : List InputItem)
    (new : InputItem)
    → All Silent outs
    → t.store ≡ true
    → (save_turn env t outs w).0 ≡ none
    → env.up (session_hash_key (turn_hash env t outs)) ≡ true
    → next.up ≡ env.up
    → next.to_lower ≡ env.to_lower
    → next.digest ≡ env.digest
    → env.up (session_responses_key t.session_id) ≡ true
    → 0 < length replay
    → turns env.to_lower replay
      ≡ turns env.to_lower
          (t.input_items ++ map output_item_to_input_item (client_facing_output outs))
    → decide_session next (complete_turn env t outs w).store "" true (replay ++ (new ∷ []))
      ≡ decided (record {
        session_id = t.session_id;
        effective_prev_resp_id = env.response_id;
        stitch_prefix_hash = turn_hash env t outs;
        stitched = true;
      })
unfolding stitch_hash
stitched_turn env next t outs w replay new silent stores none_saved uh eu el ed us long same =
    let its = t.input_items in
    let all = its ++ map output_item_to_input_item outs in
    let hash = turn_hash env t outs in
    let s0 = (save_turn env t outs w).1 in
    let s : Store = record s0 { session_hashes = insert hash t.session_id s0.session_hashes } in
    let whole : turns env.to_lower replay ≡ turns env.to_lower all =
      same
      ∙ turns-append env.to_lower its (map output_item_to_input_item (client_facing_output outs))
      ∙ ap (turns env.to_lower its ++◌) (turns-client_facing_output env.to_lower outs silent)
      ∙ sym (turns-append env.to_lower its (map output_item_to_input_item outs)) in
    let text = canonical-turns env.to_lower replay all whole in
    let same_hash : hash_of next replay ≡ hash =
      ap (λ f. stitch_hash f next.digest replay) el
      ∙ ap (λ g. g (canonical env.to_lower replay)) ed
      ∙ ap env.digest text in
    let stored : (complete_turn env t outs w).store ≡ s =
      complete_turn-store env t outs w stores
      ∙ indexed env t outs (save_turn env t outs w).0 s0 none_saved uh in
    let listed : session_ids t.session_id s
        ≡ session_ids t.session_id w.store ++ (env.response_id ∷ []) =
      save-none env.json env.saved_commands _ w.store none_saved in
    let at_hash : lookup hash s.session_hashes ≡ some t.session_id =
      rw (lookup-insert hash hash t.session_id s0.session_hashes, eq_refl hash) refl in
    ap (λ st. decide_session next st "" true (replay ++ (new ∷ []))) stored
    ∙ decide_session_replay next s replay new long
    ∙ ap (λ h. stitch next s h (lookup_session_by_prefix_hash next.up h s)) same_hash
    ∙ found next s hash t.session_id env.response_id (session_ids t.session_id w.store)
        (ap (λ u. u (session_hash_key hash)) eu ∙ uh)
        (ap (λ u. u (session_responses_key t.session_id)) eu ∙ us) at_hash listed

All-append {ℓ κ} :
    {A : Type ℓ} (P : A → Type κ) (xs ys : List A) → All P xs → All P ys → All P (xs ++ ys)
All-append P [] ys h k = k
All-append P (x ∷ xs) ys h k = (h.0, All-append P xs ys h.1 k)

pub text_to_output_items-Silent : (text : String) → All Silent (text_to_output_items text)
unfolding text_to_output_items
text_to_output_items-Silent text = (λ e. absurd (ground (arith)), tt)

pub call_items-Silent : (c : ToolCall) (o : Option String) → All Silent (call_items c o)
unfolding flatten_content flatten_parts
call_items-Silent c none = (λ e. refl, tt)
call_items-Silent c (some out) = (λ e. refl, (λ e. refl, tt))

interleave-Silent : (cs : List ToolCall) (m : List (String × String)) → All Silent (interleave cs m)
unfolding interleave
interleave-Silent [] m = tt
interleave-Silent (c ∷ cs) m =
    All-append Silent (call_items c (lookup c.id m)) (interleave cs m)
      (call_items-Silent c (lookup c.id m)) (interleave-Silent cs m)

output_items-Silent : (p : ChatResponse) → All Silent (output_items p)
unfolding output_items
output_items-Silent p =
    All-append Silent (interleave p.tool_calls (result_by_call_id p.tool_results []))
      (text_to_output_items p.content) (interleave-Silent p.tool_calls _)
      (text_to_output_items-Silent p.content)

-- A stored turn leaves a session that its client finds again, also when it named a previous response
-- itself: when the store saves the turn without an error and the keys of the session and of its hash
-- can be reached, the next request that is stored, names no previous response, and replays the
-- conversation before its last item, goes to the session of the turn with the turn's response as the
-- previous one. A replay has the turns of the request's input followed by those of the output that
-- the client is shown.
pub decide_session_lem :
    (env next : Env) (t : Turn) (p : ChatResponse) (w : World) (replay : List InputItem)
    (new : InputItem)
    → t.store ≡ true
    → (save_turn env t (output_items p) w).0 ≡ none
    → env.up (session_hash_key (turn_hash env t (output_items p))) ≡ true
    → next.up ≡ env.up
    → next.to_lower ≡ env.to_lower
    → next.digest ≡ env.digest
    → env.up (session_responses_key t.session_id) ≡ true
    → 0 < length replay
    → turns env.to_lower replay
      ≡ turns env.to_lower
          (t.input_items ++ map output_item_to_input_item (client_facing_output (output_items p)))
    → let after = (handle_responses_non_streaming env t (reply p) w).1 in
      decide_session next after.store "" true (replay ++ (new ∷ []))
      ≡ decided (record {
        session_id = t.session_id;
        effective_prev_resp_id = env.response_id;
        stitch_prefix_hash = turn_hash env t (output_items p);
        stitched = true;
      })
unfolding handle_responses_non_streaming
decide_session_lem env next t p w replay new =
    stitched_turn env next t (output_items p) w replay new (output_items-Silent p)
