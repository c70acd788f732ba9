-- ===== src/Agent.antt =====
-- internal/agent/runtime.go: how an agent gets a slot, gives it back, and hears of its preemption.
-- What the agent sends to the broker is a list of messages as the broker reads them. `Ask` says
-- which of the calls of one acquisition succeed, and what waiting for the reply comes to.
pub mod Execute
pub mod Acquire
pub mod Served
use microagent.Prelude.{
  String, Bool, true, false, not, ◌&&◌, Option, none, some, List, [], ◌∷◌, ◌++◌, if◌then◌else◌,
}
use microagent.Prelude.Int.{ℤ, negsuc, eqb_ℤ}
use microagent.Broker.{
  Message, Incoming, slot_request, slot_assigned_ack, slot_release, SlotRequestPayload,
}

pub data SlotReply : Type 0 where
  timed_out undecodable : SlotReply
  slot_assigned : ℤ → SlotReply

pub record Ask : Type 0 where
  pub correlation_id : String
  pub reply_stream : String
  -- Whether the request, the acknowledgement and a release are made, and whether they are
  -- published.
  pub request_made : Bool
  pub request_published : Bool
  pub reply : SlotReply
  pub ack_made : Bool
  pub ack_published : Bool
  pub release_made : Bool
  pub release_published : Bool

abbrev pub Sent : Type 0
Sent = List (Message × Incoming)

pub record Runtime : Type 0 where
  pub agent_id : String
  pub priority : ℤ
  pub preemptible : Bool
  pub progress_log : List String
  pub slot_id : ℤ
  pub preempted : Bool
  -- What has been published on the broker's stream of slot requests.
  pub sent : Sent

abbrev pub no_slot : ℤ
no_slot = negsuc 0

abbrev pub new_runtime : String → ℤ → Bool → Runtime
new_runtime agent_id priority preemptible = record {
  agent_id = agent_id;
  priority = priority;
  preemptible = preemptible;
  progress_log = [];
  slot_id = no_slot;
  preempted = false;
  sent = [];
}

-- `NewMessage`, whose reply stream is empty unless it is set.
abbrev pub message : String → String → String → Message
message corr source reply_stream = record {
  correlation_id = corr;
  source = source;
  reply_stream = reply_stream;
}

abbrev pub send : Message × Incoming → Runtime → Runtime
send m r = record r { sent = r.sent ++ (m ∷ []) }

-- The release of a slot, or of all slots of an agent for `no_slot`; it starts a correlation of its
-- own.
abbrev pub release_message : String → String → ℤ → Message × Incoming
release_message corr agent_id slot =
    (message corr agent_id "", slot_release (some (record { agent_id = agent_id; slot_id = slot })))

unfoldable pub defensive_release : Ask → String → Runtime → Runtime
defensive_release ask corr r =
    if ask.release_made && ask.release_published
    then send (release_message corr r.agent_id no_slot) r
    else r

abbrev pub request_message : Ask → Runtime → Message × Incoming
request_message ask r = (
  message ask.correlation_id r.agent_id ask.reply_stream,
  slot_request (some (record { agent_id = r.agent_id; priority = r.priority; slot_class = "" })),
)

abbrev pub ack_message : Ask → ℤ → Runtime → Message × Incoming
ack_message ask slot r = (
  message ask.correlation_id r.agent_id "",
  slot_assigned_ack (some (record { agent_id = r.agent_id; slot_id = slot })),
)

-- From the reply on; `corr` is the correlation of a release.
unfoldable pub on_slot_reply : Ask → String → SlotReply → Runtime → Option ℤ × Runtime
on_slot_reply ask corr timed_out r = (none, defensive_release ask corr r)
on_slot_reply ask corr undecodable r = (none, defensive_release ask corr r)
on_slot_reply ask corr (slot_assigned slot) r =
    if not ask.ack_made
    then (none, defensive_release ask corr r)
    else if not ask.ack_published
    then (none, defensive_release ask corr r)
    else (some slot, record (send (ack_message ask slot r) r) { slot_id = slot; preempted = false })

-- `RequestSlotWithCorrelation`, `none` for an error.
unfoldable pub request_slot : Ask → String → Runtime → Option ℤ × Runtime
request_slot ask corr r =
    if not ask.request_made
    then (none, r)
    else if not ask.request_published
    then (none, r)
    else on_slot_reply ask corr ask.reply (send (request_message ask r) r)

-- `ReleaseSlotWithCorrelation`, `false` for an error.
unfoldable pub release_slot : Ask → String → Runtime → Bool × Runtime
release_slot ask corr r =
    let freed = record r { slot_id = no_slot } in
    if eqb_ℤ r.slot_id no_slot
    then (true, freed)
    else if not ask.release_made
    then (false, freed)
    else if not ask.release_published
    then (false, freed)
    else (true, send (release_message corr r.agent_id r.slot_id) freed)

-- `ListenForPreemption`, when a signal comes.
unfoldable pub hear_preemption : Runtime → Runtime
hear_preemption r = record r { preempted = true }
