-- ===== src/Lib.antt =====
-- Verification library of microagent2, a set of Go services that share one llama-server and talk over
-- Valkey streams.
--
-- The program's parts. Agents announce themselves to a registry (internal/registry) and ask the
-- broker (internal/broker) for a slot of the llama-server; the broker offers a free slot, waits for
-- the acknowledgement, preempts an agent of a larger priority number or lets the request wait, and
-- proxies the LLM requests of the slots' owners. The agent's side of this is its runtime
-- (internal/agent), and the LLM proxy (internal/llmproxy) asks in the place of services that are not
-- agents. The gateway (internal/gateway) takes the requests of clients, decides on their session, sends
-- them on, and answers with the agent's reply or a stream of its tokens; it keeps the responses of a
-- conversation and the sessions in Redis (internal/response). The context manager puts the stored history
-- and recalled memories before a request (internal/context). The main agent (cmd/main-agent) runs the
-- model and the tools that it calls (internal/tools) in turns, under the session's active skill
-- (internal/sessionskill). Skill scripts run in directories of their session (internal/exec). The jobs of
-- the retrospection (internal/retro) look back at a session that has gone quiet or has ended. Services
-- describe their panels by descriptors (internal/dashboard), which the registry checks. The broker, the
-- context manager and the agents read their streams by the loop of internal/messaging, which also has the
-- wait for a reply.
--
-- Which file models what.
--   Slots        internal/broker/slots.go: SlotTable and its methods; Entry has the types, Ops the
--                calls as one type.
--   Broker       internal/broker/broker.go: the handlers of slot messages, the timers, the queue;
--                State has the types.
--   Broker/Llm   handleLLMRequest; Broker/Sse is readSSEStream.
--   Agent        internal/agent/runtime.go: getting and returning a slot; Execute is the loop that reads
--                the model's answer, and the progress log; Served joins it to Broker.
--   LlmProxy     internal/llmproxy/server.go: the handler and its two kinds of answer; Consume is the
--                loop that reads a reply stream, Request has the types.
--   Gateway      internal/gateway: what the handlers share, with speaker.go; State has the types. Reply
--                and Stream are the two handlers of a turn, Create handleCreateResponse and
--                handleGetResponse, Messages the messages made of items, Chat the chat completions,
--                Sessions the sessions and the trigger of jobs of server.go, Told what the agent is told of a
--                conversation, item by item.
--   MainAgent    cmd/main-agent/main.go: handleRequest; State has the types, Skill the active skill and
--                what it gates, with internal/sessionskill.
--   Tools        internal/tools/tool.go: the registry of tools.
--   Retro        internal/retro: lock.go and checkpoint.go; Jobs is job.go, with its prompts in Prompts,
--                Tags the requests to keep a memory, Trigger trigger.go.
--   Registry     internal/registry/agent.go and the announcements of consumer.go; Registry/Watch is the
--                heartbeat monitor.
--   Response     internal/response/store.go: saving, reading, the response chain; Session has the
--                sessions, Content hash.go and the item types.
--   Exec         internal/exec: session names (workspace.go), sandbox.go and, in Exec/Gc, gc.go.
--   Context      internal/context: the messages of an agent's request; Conversation joins it to Response.
--   Dashboard    internal/dashboard/descriptor.go: the checks of descriptors; Descriptor has
--                the types.
--   Messaging    internal/messaging: messages, reads and the wait for a reply (message.go, client.go);
--                Consume is consume.go.
--   Prelude      shared names, Boolean tests, lists, signed integers, texts.
--   Examples     runs at concrete inputs.
-- A function has the Go name in snake case; a type keeps its name. The children of a module hold its
-- proofs.
--
-- How the code is modelled. A method under a mutex is one atomic function of the state. A handler that
-- takes the slot table's lock twice is given the calls that other goroutines make in between, which may
-- be any. Goroutines that sleep are timers in the state, fired by steps in any order. Maps are
-- lists of pairs. Errors are results. The clock, the success of a publication and the text of a JSON
-- document are arguments. Times are nanoseconds. Machine integers are only compared, and never reach
-- their bounds, but for the heartbeat threshold and the byte counts of a collection, whose arithmetic is
-- taken not to overflow. What a handler publishes is a list, in order, and the parts meet in these lists:
-- the messages of the agent's runtime and of the LLM proxy are those that the broker's handlers take, and
-- the reply of the main agent is the one that the gateway stores.
-- A loop that waits for messages is a structural recursion on the list of what it finds, which is of any
-- length; where the list ends, the loop waits or goes on, and says so. The main agent's loop recurses on
-- the iterations that it has left, and is not left when a run of the model never returns, which is one of
-- the things that an iteration can come to. The loop of WalkChain runs on fuel, a round for each stored response
-- and two more, which is enough because each round reads a stored response that no round before has read,
-- and a walk without an end is a result of its own; all other loops are structural recursions.
--
-- Not modelled: logging, the Redis and HTTP calls themselves, JSON, process start-up, expiry of keys, and
-- the services that are listed as such in the manifest: the memory service, MCP, the log stream, and the
-- processes of skill scripts among them.
pub mod Agent
pub mod Broker
pub mod Context
pub mod Dashboard
pub mod Examples
pub mod Exec
pub mod Gateway
pub mod LlmProxy
pub mod MainAgent
pub mod Messaging
pub mod Prelude
pub mod Registry
pub mod Response
pub mod Retro
pub mod Slots
pub mod Tools
