-- ===== src/Lib.antt =====
-- A model of the agent runtime of this repository, with the theorems that make its core correct.
--
-- The program. internal/core is the loop of one agent: a user's message is kept, a provider is asked,
-- its stream is folded into a message, the tool calls of that message are put before the hooks and
-- run, their results are kept, and the provider is asked again. Hooks may change or refuse what passes;
-- events tell the bus and the run's channel what happened. internal/engine holds what a host plugs
-- into the core.
--
-- Prelude          numbers, lists, texts and integers that the parts share
-- Core/Message     internal/core/message.go, tool.go: the records; other files use their names
-- Core/Error       the errors as one data type, and the result type
-- Core/Validate    validateContentBlock, validateToolCalls, validateToolInvocation,
--                  validateToolResult, isJSONObject, validateJSONCompatible
-- Core/Assembly    internal/core/agent.go: normalizeConfig, inspectTools, validateMessage; Idempotence
--                  holds the proofs
-- Core/Session     the state: messages (state.go), hook registry (hooks.go), the events published and
--                  delivered (event.go), the requests made, and the world
-- Core/Hooks       internal/core/hooks.go: Register, Unregister, trigger, invokeHook, recordFailure.
--                  Hooks/Order, Register, Unregister, Failures, Isolation and Effects hold the proofs
-- Core/Accumulator internal/core/loop.go: messageAccumulator; Text holds the proofs
-- Core/Exec        the monad of the methods: a session goes in, a session and a result come out
-- Core/Emit        the agent with what lies outside it, newEvent, emit and its callers
-- Core/Tools       reconcileRefusedCalls, runTools, executeToolsConcurrently, executeTool, errorToolResult;
--                  Slots, Answers, Unhooked and Complete hold the proofs
-- Core/Inputs      internal/core/agent.go: validateInput; loop.go: the content of newUserMessage
-- Core/Loop        internal/core/loop.go: executeLoop, buildRequest, consumeStream, newUserMessage;
--                  Steps, Journal, Moves, Sourcing, Bounds and Streaming hold the proofs
-- Core/Journal     the abstract view: a session told by the state changes that it published
-- Core/Run         Run and run, with the terminal event; Terminal and Exclusion hold the proofs
-- Core/Bus         internal/core/event.go: asyncEventBus, its dispatcher and its subscriptions as interleaved
--                  steps; Lookup, Order, Growth and Wakeups hold the proofs
-- Core/Tests       one agent in a small world, with the concrete runs
-- Context/Ring     internal/engine/context/ring.go: RingBuffer; History holds the proofs
-- Context/Estimate internal/engine/context/context.go: HeuristicEstimator and the helpers on text
-- Context/Strategy strategy.go: CompactPlan, SummarizeStrategy, TruncateStrategy
-- Context/Plan     manager.go: Config, Admit, Plan; Turns, Cut and Admitted hold the proofs
-- Context/Manager  manager.go: Compact and what it calls; Keys, Forced, Reports and Calls hold the proofs
-- Context/Tests    a ring of two, and a conversation over its budget
-- Storage/Buffer   internal/engine/storage/writebuffer.go: the queue of WriteBuffer; Kept and Bounds hold
--                  the proofs
-- Storage/Pipeline the buffer, its sinks and the drains between them as interleaved steps; Order, Numbers
--                  and Bounded hold the proofs
-- Storage/Drain    Flush, drainAll and Close as one goroutine runs them; Finished holds the proofs
-- Storage/Journal  journal.go: Write, ReadJournal, TruncatePartialJournal; Recovery holds the proofs
-- Storage/Tests    a buffer over two sinks, and a journal behind a crash
-- Subagent/Mailbox internal/engine/subagent/message.go: Message and Mailbox
-- Subagent/Broker  broker.go: the mailboxes of a Broker
-- Subagent/World   broker.go: Send, FileOrphans and Close as interleaved steps; Boxes, Holding, Promises,
--                  Counters, Postings and Accounts hold the proofs
-- Subagent/Collect state.go: Take; Taken holds the proofs
-- Subagent/Table   a map of Go with texts as its keys
-- Subagent/Agents  registry.go: the records of Registry
-- Subagent/Registry registry.go: Registry, one call at a time; Sane and Runs hold the proofs
-- Subagent/Tests   a main core and an agent
-- Tools/Pool       internal/engine/tools/pool.go: Pool; Switching and Listing hold the proofs
-- Tools/Tests      a pool of three tools
--
-- Correspondence. A method of the Go agent is a function on the session that gives the session back
-- beside its result, also when the result is an error, since Go keeps what was done before an error.
-- What Go reaches outside the repository is an argument: the record Std has the functions on texts
-- (encoding/json, strconv, strings), the record Agent the random source, the clock, the context,
-- the send on the run's channel, the provider, the tools and the scheduler, each a function on the
-- world. A stream is the list of what arrives on its channel, with the end of the context as one
-- of the arrivals. The goroutines of executeToolsConcurrently run one after the other in an order that the
-- scheduler chooses, each writing its own slot. A panic of a hook or of a tool is an outcome of its call.
-- In Core/Emit the bus is the list of what was published; Core/Bus has what becomes of it there: a
-- step is what one goroutine does under one lock, and a run is any list of steps. Storage/Pipeline
-- and Subagent/World are built so too: Go leaves a lock between taking a batch and writing it, and
-- between a journal write and a delivery, and other steps may come there.
--
-- Bounds. The loop is recursion on max_iterations, as the source's `for` counts it, so no fuel is
-- added. The sequence numbers of hooks are taken modulo 2 ^ 64, the priorities are integers from
-- -100 to 100 behind a check, and the failure log holds 256 entries.
--
-- Not modelled: hooks that register or unregister hooks (a hook acts on the world alone), the
-- interleaving of two broadcasts over several mailboxes (route is one step, but for the counts of a
-- mailbox, which are steps of their own), time stamps of events, the sampling temperature, the deep copies that keep callers
-- from sharing memory with the state, the observers that on_event hooks
-- put on the bus, the names of journal files, the reason text of a compaction, and the rest of
-- internal/engine, which is mostly input and output.

pub mod Prelude
pub mod Core
pub mod Context
pub mod Storage
pub mod Subagent
pub mod Tools
