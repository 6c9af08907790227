-- ===== src/Lib.antt =====
-- CertOS: a small cluster manager. A master keeps a table of jobs and a registry of compute nodes,
-- assigns queued jobs to nodes, and answers the agents on the nodes and the clients of the gateway.
--
-- The files and what they model:
--   Base            what the files share: Boolean tests, lists, byte strings, maps, integers
--   Messages        proto/certosc/common.proto: the messages and enums
--   Uuid            lib/common/src/uuid.cpp: generate_uuid, and the short ids made of it
--   Master.KeyValue the key-value half of the state store, as an interface
--   Master.Jobs     master/src/job_manager.cpp: the class JobManager, each method a function on its state
--   Master.Nodes    master/src/node_registry.cpp: NodeRegistry
--   Master.Resources master/src/resource_manager.cpp: ResourceManager, with wrap-around at the widths
--                   of the protobuf fields
--   Master.FairShare master/src/scheduler/fair_share.cpp: FairShareManager, over Master.Double
--   Master.Scheduler master/src/scheduler/scheduler_engine.cpp: one pass of the scheduler, as one step
--   Master.Scheduler.Engine master/src/scheduler/scheduler_engine.cpp: the start, the stop and the thread
--   Master.System   the handlers of master/src/grpc_service.cpp that write and the scheduler's thread, as one
--                   system of moves in any order
--   Master.Rpc      the results of handlers
--   Master.JobCalls, Master.Agents, Master.Accounts, Master.Requests
--                   master/src/grpc_service.cpp: the handlers of MasterServiceImpl and AgentServiceImpl
--                   for jobs, for agents, for accounts, and for public requests
--   Master.RequestStore the request half of the state store and the JSON form of a request, as interfaces
--   Master.StateStore master/src/state_store.cpp, over a parameter for SQLite; its children Texts and
--                   Requests make it the two interfaces, Master.KeyValue and Master.RequestStore
--   Master.Server   master/src/master_server.cpp: the constructor of MasterServer
--   Master.Server.Process master/src/main.cpp and the rest of master/src/master_server.cpp: main and a signal
--   Auth            lib/auth/src/rbac.cpp and lib/auth/src/auth_interceptor.cpp
--   Auth.Tokens     lib/auth/src/jwt_manager.cpp, over jwt-cpp as a parameter
--   Config          lib/common/src/config.cpp and config.h: the configurations and how they are loaded
--   Agent.Executor  agent/src/job_executor.cpp: JobExecutor, with the thread of each job as moves between
--                   the points where it waits, locks or calls back
--   Agent.Client    agent/src/agent_grpc_client.cpp: AgentGrpcClient, over the generated stub
--   Agent.Daemon    agent/src/agent_daemon.cpp: AgentDaemon, its callbacks and one turn of each loop
--   Metrics         lib/metrics/src/system_monitor.cpp: SystemMonitor, on the numbers that are read
--   Gateway         gateway/src/rest_routes.cpp: which route a request gets, and the ids in its path
--   Gateway.Json    what is used of Boost.JSON, as an interface
--   Gateway.Bridge  gateway/src/grpc_bridge.cpp: GrpcBridge, over the generated stub; its methods are in
--                   Gateway.Bridge.Calls
--   Gateway.Service gateway/src/rest_routes.cpp: RestRoutes::handle as a whole
--   Gateway.Server  gateway/src/http_server.cpp: HttpServer, as completion handlers in any order
--   Agent.Connected, Gateway.Service.Connected
--                   the two stubs, filled by the handlers of master/src/grpc_service.cpp
-- A file's children hold its lemmas, by what they are about; the last of them, Tests, its examples.
--
-- Conventions. A method takes its object's lock for its whole body, so it is one step: a function from
-- the state and the arguments to the state and the result, and threads are sequences of steps. Readings
-- of the clock and random numbers are arguments. A std::unordered_map is an association list that keeps
-- a key's place. Unix timestamps are natural numbers. Every loop is over a list; only the decimal form
-- of a number is on fuel, for 20 digits, which every 64-bit number has at most.
--
-- The scheduler's thread locks a component only inside that component's methods, so other calls come between
-- its moves; Master.System lets all of them come in any order. There a handler that makes several calls of
-- the state store is one move all the same; nothing is proved there of what it stores.
-- In Master.Server.Process a signal's handler runs on main's thread, and the scheduler's goes on beside it.
--
-- A thread of the agent's executor and the daemon's two loops interleave: a run is a list of moves in any
-- order, and what the operating system does (pipe, fork, read, waitpid) is the input of a move.
--
-- Parameters stand for what is not in the repository: `double` and <cmath> (Master.Double), std::sort,
-- the random generator, SQLite, protobuf's JSON (Master.RequestStore), jwt-cpp (Auth.Tokens),
-- yaml-cpp (Config.Yaml), gRPC's server, Boost.JSON (Gateway.Json), the generated stubs (AgentStub,
-- MasterStub) and the file system (Gateway.Service.Files). The handlers take the state store by its interfaces
-- (Master.KeyValue, Master.RequestStore). Log lines are left out. Not modelled: the reading of
-- numbers from /proc, the set-up of log files, the WebSocket handler, which is a stub; and sockets, the
-- main functions of the agent and the gateway and the choice of the file in the master's.
pub mod Base
pub mod Messages
pub mod Uuid
pub mod Config
pub mod Master
pub mod Agent
pub mod Metrics
pub mod Gateway
pub mod Auth
