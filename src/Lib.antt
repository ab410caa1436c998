-- ===== src/Lib.antt =====
-- codeRunner-backend takes programs over gRPC and HTTP and runs them in containers. A server
-- process keeps websocket connections to workers and picks one for each request; a worker takes a
-- container out of its pool, runs the code and sends the answer to a callback address or back
-- over its connection. Beside that the server has a chat agent, which can propose code and have
-- it run when the visitor confirms, and limits on requests by address.
--
-- The parts, and the files that model them:
--
-- * internal/infrastructure/containerBasic/pool.go is Pool: ContainerPool with Acquire (acquire),
--   Release (release_plan, put_back), replenish (restart_loop, replenish), Close (mark_closed,
--   close_idle). Pool.System puts them in one system of callers, pending sends and rebuilds that
--   take turns in any order (step, run); Pool.Startup is the start of a worker (NewDockerClient,
--   ensureContainerExistsByName in container.go, ToPoolSizes in
--   internal/infrastructure/config/initConfig.go).
-- * internal/infrastructure/containerBasic/runCode.go and container.go are Runner: Language has
--   the language tables and commands, Files the chain that writes the code to a file, Exec the
--   run in the container, Flow the function RunCode around them (run_code, with_slot, finish),
--   with the list of its effects in order. It reaches Pool by what Acquire answers and by the
--   effect that Release is; Served puts the languages and a new pool together.
-- * internal/domain/server/service/clientManager.go and internal/domain/server/entity/client.go
--   are Manager: the table of workers, their requests in flight, and the retry loop of
--   GetClientByBalance, for any implementation of the interface LoadBalancer (Balancer).
-- * internal/infrastructure/balanceStrategy/p2cBalance is Balancer.P2c, one implementation of the
--   interface, over any type of floating-point numbers. weightedRRBalance beside it is
--   Balancer.WeightedRr, which the program does not use: Ghost follows what a node was given and
--   lost, Step is one call of Next, Fair and Round are many.
-- * internal/application/service/server/service.go is Dispatch: Execute, ExecuteSync, and what
--   Run does when a worker connects and when its connection ends.
-- * internal/infrastructure/websocket/server/client.go is Socket: the server's end of a
--   connection (read, send, begin_sync, end_sync, close), and the acts of its reader and of the
--   callers of SendSync in any order (act, run). Results is about whose answer a caller gets,
--   Waiting about when the reader waits. Dispatch has its answers as arguments.
-- * internal/interfaces/controller/server, internal/interfaces/adapter/middleware/interceptor.go
--   and internal/infrastructure/common/token/tokenPublic.go are Endpoint: the ways in over gRPC
--   (unary_interceptor, execute_endpoint) and HTTP (execute_handler), the arrival of a worker
--   (handle_server) and the tokens (public_token, verify), over Dispatch.
-- * internal/infrastructure/ratelimit/ratelimit.go is Limiter: Allow (allow, by refresh and
--   admit) and a tick of the janitor.
-- * internal/domain/feedback, internal/application/feedback/service.go and
--   internal/interfaces/controller/feedback/handler.go are Feedback: the handler, Submit and the
--   mail that it writes (handle_feedback, submit, mail_of), over Limiter.
-- * internal/agent/session/store.go is Session: FileStore as a cache of metadata over two maps of
--   files, with the operations of the source under their names. Session.View is the store as a
--   client sees it, without cache and files, and Session.Refinement relates the two. Session.Log
--   is about messages that are read back, Session.TooLong about one that is not.
--   internal/agent/checkpoint/store.go is Checkpoint.
-- * internal/agent/handler is Agent: Events has the loop over the events of a run, Chat the
--   handler of messages, Confirm that of confirmations, Cancel the smaller ones.
--   internal/agent/tools/propose_execution.go is Agent.Propose, internal/agent/executor.go is
--   sync_request in Agent.Confirm, and config.go and internal/agent/ai are Agent.Settings.
-- * internal/agent/prompt is Prompt: Tags has the patterns of the reserved tags and what replaces
--   them, Build the sections and the rendering. Neutral, Scan, Put and Clean are about one text,
--   Joined, Payload and Render about texts put together. Agent.Instruction is buildInstruction,
--   which uses it; Agent.Chat takes any function for it.
-- * internal/infrastructure/websocket/client/client.go,
--   internal/domain/client/entity/innerServer.go and
--   internal/application/service/client/service.go are Worker: Link is the worker's connection
--   with its reconnects (connect, reconnect, close_link), Serve the run and the answer of one
--   request (serve, call_back_send), Tidy and Reconnect are about the connection. Read is Read,
--   and Loop the loop of Run over Read and Serve.
-- * internal/auth is Auth: the address to return to (Return, return_to.go), the signed state of a
--   sign-in (State, state.go), the token (Token, jwt.go), the service and its handlers (Service,
--   service.go, handler.go, config.go), the client of GitHub (Github, github_client.go), and the
--   sign-in with that client (SignIn). The OAuth library, the HTTP client and the JSON decoder
--   are the record Web; the hash, the encodings and the token library are the record Crypto.
-- * api/proto/codeRunner.proto is Api, the messages between the parts.
--
-- Prelude has what the modules share. A Go string is the list of its code points (Text), a map is
-- an association list (TextMap), a buffered channel says whether a send completes, waits or
-- panics (Chan), an int64 is an integer whose wrap-around is written out (Int), and a pair of a
-- value and an error is a Result or an Option.
--
-- Time, chance, the disk, the container engine and the network are arguments. Where the source
-- takes a lock, the operation is one step; operations that hold no lock, or not to their end
-- (GetMeta of the sessions, Done of the balancer), are taken as one step as well, which their
-- files say; where it starts a goroutine or lets another request in between, the model has two
-- functions, which other steps can come between. The order in which Go ranges over a map is the
-- order of the association list. Libraries outside the repository are parameters: the agent
-- library is the record Schema and lists of events, the token library of the API the record
-- TokenLib. Go's regular expressions are matchers by clauses, one for each pattern.
--
-- Loops end by themselves, with these bounds: a restart is tried three times
-- (max_replenish_retries), a worker is picked in three rounds at most (max_retry_pick_client),
-- and a callback is tried three times (callback_max_retries), as in the source; a reconnect goes
-- on until it works or the worker is closed, so its rounds are a list that may end before either
-- (attempt_all; Reconnect says which rounds are enough); printing a number n divides n + 1 times,
-- which is more than it has digits (value_from-decimal).
--
-- Not modelled: logging, metrics and tracing, which change no state of the program; the reading
-- of configuration but for the sizes of the pools and the defaults of the agent; the start of the
-- processes and the registration of routes and services (internal/interfaces/adapter), which are
-- glue; etcd, SMTP, GitHub, the model providers and docker itself, which are other programs; code
-- generated from the proto file. Of the heartbeats of the connections, which are timers and
-- callbacks of the websocket library, only the end after a failing ping is there
-- (Worker.Link.heartbeat_fails). The verb %q of the printer is a parameter of Agent.Confirm,
-- since its table of printable characters is large.
pub mod Prelude
pub mod Api
pub mod Pool
pub mod Runner
pub mod Balancer
pub mod Manager
pub mod Dispatch
pub mod Socket
pub mod Endpoint
pub mod Limiter
pub mod Feedback
pub mod Session
pub mod Checkpoint
pub mod Prompt
pub mod Agent
pub mod Worker
pub mod Auth
