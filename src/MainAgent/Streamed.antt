-- ===== src/MainAgent/Streamed.antt =====
-- cmd/main-agent/main.go and internal/gateway/responses.go: a turn as the gateway's stream hears
-- it. The two channels of a session are taken to deliver in the order of publication.
use microagent.Prelude.{ℕ, ◌⊎◌, String, true, false, ◌≡◌, List, [], ◌∷◌, All}
use microagent.Gateway.Stream.{
  StreamEvent, StreamEnd, tool_called, tool_returned, token, passed_over, finished, waiting,
}
use microagent.MainAgent.{
  Iteration, Turn, Published, token_sent, call_sent, result_sent, done_sent, reply_sent,
}
use microagent.MainAgent.Loop.{NeverReturns}

-- What the gateway's stream takes of what is published; the reply goes to another stream.
abbrev pub event_of : Published → StreamEvent
event_of (token_sent t) = token t false
event_of (call_sent c) = tool_called c
event_of (result_sent id out) = tool_returned id out
event_of done_sent = token "" true
event_of (reply_sent p) = passed_over

abbrev pub events_of : List Published → List StreamEvent
events_of [] = []
events_of (p ∷ ps) = event_of p ∷ events_of ps

-- The tokens of what is published.
abbrev pub tokens_of : List Published → List String
tokens_of [] = []
tokens_of (token_sent t ∷ ps) = t ∷ tokens_of ps
tokens_of (call_sent c ∷ ps) = tokens_of ps
tokens_of (result_sent id out ∷ ps) = tokens_of ps
tokens_of (done_sent ∷ ps) = tokens_of ps
tokens_of (reply_sent p ∷ ps) = tokens_of ps

-- Neither the last token nor a reply.
abbrev IsBody : Published → Type 0
IsBody (token_sent t) = Unit
IsBody (call_sent c) = Unit
IsBody (result_sent id out) = Unit
IsBody done_sent = ⊥
IsBody (reply_sent p) = ⊥

abbrev BodyOnly : Turn → Type 0
BodyOnly t = All IsBody t.published

-- The end of the stream of a turn of at most `n` runs: it comes, unless a run never returns.
abbrev pub EndsOrStuck : ℕ → (ℕ → Iteration) → StreamEnd → Type 0
EndsOrStuck n runs ending = (ending ≡ finished) ⊎ ((ending ≡ waiting) × NeverReturns runs n)
