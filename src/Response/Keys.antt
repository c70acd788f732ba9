-- ===== src/Response/Keys.antt =====
-- `splitSessionKey` of internal/response/store.go.
use Prim.Native.String.{◌++◌ as str_append, slice, len}
use text.Mathlib.TextLemmas.{append_assoc as str_append_assoc}
use text.Mathlib.TextPositions.{
  len-append, slice-append_left, slice-append_middle, slice-append_right,
}
use microagent.Prelude.{◌+◌, ◌-◌, String, ◌≡◌, refl, sym, arith, ltb, false}
use microagent.Response.{session_responses_key, split_session_key}

len-session_responses_key : (sid : String) → len (session_responses_key sid) ≡ 18 + len sid
len-session_responses_key sid =
    let p = len-append "session:" (str_append sid ":responses") in
    let q = len-append sid ":responses" in omega (arith, p, q)

key_end :
    (sid : String) → slice (session_responses_key sid) (8 + len sid) (18 + len sid) ≡ ":responses"
key_end sid =
    let p = len-append "session:" sid in
    let e : len (str_append "session:" sid) + 10 ≡ 18 + len sid = omega (arith, p) in
    rw (sym (str_append_assoc "session:" sid ":responses"), ← p, ← e)
      (slice-append_right (str_append "session:" sid) ":responses")

-- The session id read back from the key of a session's list is the session's.
pub split_session_key-session_responses_key :
    (sid : String) → split_session_key (session_responses_key sid) ≡ sid
unfolding split_session_key
split_session_key-session_responses_key sid =
    let m : 18 + len sid - 10 ≡ 8 + len sid = omega arith in
    let long : ltb (18 + len sid) 18 ≡ false = ground arith in
    rw
      (
        len-session_responses_key sid,
        long,
        m,
        key_end sid,
        slice-append_left "session:" (str_append sid ":responses"),
        slice-append_middle "session:" sid ":responses",
      )
      refl
