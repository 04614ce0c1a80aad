-- ===== src/Lib.antt =====
-- The agent harness of this repository, in Go: an engine that lets a small language model choose
-- tools, runs them under permissions and guards, and keeps the conversation within a token budget.
--
-- Parts and files:
--   Llm.Message           internal/llm/types.go: messages, requests, responses, usage
--   Llm.FixJson           internal/llm/fixjson.go: FixJSON and its passes (Passes, Trim, Merge), and
--                         the reference texts of JSON values (Value, Number, and the modules on the
--                         walk of each pass over them)
--   Context.Estimate      internal/context/estimate.go: EstimateTokens
--   Context.Compaction    internal/context/compaction.go: runCompaction and its four stages
--   Context.Manager       internal/context/manager.go, option.go, observer.go: the history with its
--                         token count, threshold and observers
--   Engine.Errors         internal/engine/errors.go, tripwire.go: chains of errors and classifyError
--   Engine.Exec           Go methods that change an object and may return an error
--   Engine.Guard          internal/engine/guard.go, guard_registry.go
--   Engine.Permission     internal/engine/permission.go, audit.go
--   Engine.Verify         internal/engine/verify.go
--   Engine.Registry       internal/engine/registry.go, pkg/tool/tool.go
--   Engine.Prompt         internal/engine/prompt.go
--   Engine.State          internal/engine/engine.go, message.go, result.go: the Engine's
--                         configuration, the state that a run changes, buildMessages,
--                         toolAlreadySucceeded
--   Engine.Step           internal/engine/engine.go, router.go: stepWithTurn, toolStep, chatStep,
--                         routerStep, checkToolAccess, executeAndRecord, maybeCompact
--   Engine.RouterTexts    internal/engine/router.go: the fixed texts for the router
--   Engine.New            internal/engine/engine.go, option.go, memory.go: New, initPromptBuilder
--   Engine.New.Fork       internal/engine/engine.go: Fork, and the run of a child engine
--   Engine.Delegate       internal/engine/delegate.go, coordinator.go: the virtual tools
--   Engine.Run            internal/engine/engine.go: Run
--   Engine.History        the history over a whole run
--   Engine.Session        internal/engine/session.go: RunLoop over a file of tasks
--   Llm.Retry             internal/llm/retry.go: doWithRetry
--   Engine.Builtin        internal/engine/builtin: the guards, verifiers and the summariser
--   Engine.Judge          internal/engine/loop_type.go, builtin_judge.go
--   Engine.Options        internal/engine/option.go
--   Engine.Calls          internal/engine/engine.go: RegisterTool, Inject, Summarize, History
--   Protocol              pkg/protocol: the messages of JSON-RPC (Message), the parameters and
--                         results of the methods (Methods, Registration)
--   Rpc.Pending           internal/rpc/pending.go: the callers that wait for a response
--   Rpc.Server            internal/rpc/server.go, over schedules of its goroutines
--   Rpc.Notifier          internal/rpc/notifier.go
--   Rpc.Remote            internal/rpc/remote_*.go: what the wrapper implements
--   Rpc.Registry          internal/rpc/remote_registry.go
--   Rpc.Configure         internal/rpc/configure.go: the parts of a configuration (Fields, Names) and
--                         rebuildEngine (Rebuild)
--   Rpc.Handlers          internal/rpc/handlers.go: the handlers, alone (Agent, Registrations), one
--                         after another (Dispatch) and in any order of their locks (Runs)
--   Examples              the properties at concrete inputs
--
-- How they interact: Run adds the input to the Manager and takes steps until one is terminal, an
-- error or a limit ends it. A step first compacts the history when the threshold is reached, then
-- asks the router with the prompts of the PromptBuilder; FixJSON repairs the answer. The chosen tool
-- passes the permission checker and the guards, is run, recorded with its result in the history, and
-- verified; with no tool the chat gives the answer, which passes the output guards. A wrapper in another
-- language drives the engine over JSON-RPC and may implement tools, guards, verifiers, judges and the
-- completer itself: the engine then asks it by SendRequest and waits for the response.
--
-- How the code corresponds: a Go string or []byte is the list of its bytes, an int a natural number
-- where the program keeps it from being negative, a map an association list, a nil pointer `none`. A
-- method that changes the engine is a function from state to result and state; what the tools,
-- guards, completers and callbacks do outside is a world that is passed through. Floats and the
-- tables of unicode are parameters of which nothing is assumed, as are encoding/json, the random
-- call ids, the wait before a retry and the context's cancellation.
--
-- Loops: the loop of Run goes by the turns that are left, which are the bound of the source; loops
-- over slices go by the slice; adjustKeepBoundary goes by the rounds that are left. The only fuel is
-- that of the decimal digits of a number, one more than the number itself.
--
-- Concurrency: the goroutines of the server share it under mutexes and channels, and a schedule is a
-- list of their atomic steps in any order; a channel is a cell of a heap.
--
-- Not modelled: log lines, the HTTP client but for its retries, the parser of streams, the MCP client
-- and its handler mcp.register, the skills loader and the built-in tools, which are input and output
-- for the most part; an agent.configure while a run holds the old engine, whose two locks are taken
-- one after the other.
pub mod Common
pub mod Llm
pub mod Protocol
pub mod Rpc
pub mod Context
pub mod Engine
pub mod Examples
