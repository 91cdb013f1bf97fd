-- ===== src/Lib.antt =====
-- A verification library for the conversation backend of the legal chat bot.
--
-- The backend keeps conversations in PostgreSQL (backend/src/backend_app/repositories/
-- conversation.py, tables in database/migrations). A run answers one message: the run service
-- (backend/src/backend_app/services/run_service.py) consumes the stream of the agent, writes the
-- transcript through the repository and yields events. The run manager
-- (backend/src/backend_app/api/run_manager.py) pumps these events into a durable log, from which
-- clients are served; the HTTP API (backend/src/backend_app/api/app.py) checks the requests and
-- calls these. Several instances work on one database. The agent (agent/src/agent_app) searches
-- the law articles that the ingestion (db-admin/src/db_admin) has put into a vector store and a
-- graph store (legal_infra/src/legal_infra), with the functions of legal_core/src/legal_core.
--
-- Prelude, Text: Boolean tests on native numbers, tables as lists of rows with the statements of
-- SQL on them, and texts as lists of code points with the string methods that the code uses.
--
-- Json, Env: JSON values as `json.loads` gives them, and the environment variables.
--
-- Store: the repository. Store/Schema has the tables as records, and an Action is a method: a
-- function from the database to a result and the database after it. Runs, Threads, Messages, Events
-- and Forks hold the methods under their names. Unique keys, the partial index
-- one_active_run_per_thread and the foreign keys that a method can meet are tests in it. A UUID is a
-- number that the caller draws, time is an argument, and a JSON column holds the value that was
-- dumped. Store/Ops has every write as one step, for histories of several instances.
--
-- Run: the run service. In Run/World a generator is a function on a world with the database,
-- the cancel flags, the yielded events and a schedule that says, for each repository call, what
-- the other instances did before it or that it failed. Run/Chat has the agent's messages and
-- the stream as a list of rounds, Wire the frames of sse_wire with json.dumps (a float is a value of
-- a parameter type with its repr), Wire/Reader and Wire/Tokens a client that reads them, Markers
-- the regular expression _CITE, Compose the final text, Handle _handle_chunk and _handle_message,
-- Finalize _finalize, Drive _drive, Service and Threads the methods of RunService; Settled follows
-- a drive to its end. An event of the kind error holds its message and the forged ids.
--
-- Manager: the run manager. Manager/Pump is the pump and the maintenance loop, one tick after the
-- other at the given times, Tail the stream from the log, Control start, resume and interrupt. Rows,
-- Pumped, Replay and Relay follow an event from the generator through the log to the client.
--
-- Api: the HTTP API. A route is a function on the same world with three outcomes: a reply, a status
-- of HTTPException, or an exception that the framework answers with 500 (Api/Outcome). Api/Guards
-- has the checks of the fields, Threads, Runs and Settings the routes, in the order of their tests
-- and calls, Limit the middleware that bounds a body. A request is what the framework hands to a
-- route: the fields of its body, its path and its query. `uuid.UUID`, `int` and `float` on a text are
-- parameters.
--
-- Boot: the start. Boot/Database has the arguments of the pool, the search for the migrations and
-- their runner of backend/src/backend_app/db.py, Registry the table of agents that RunService keeps,
-- Lifespan the lifespan of app.py with what its parts raise, Providers the choice of the search
-- classes in legal_infra/src/legal_infra/provider.py.
--
-- Agent: Agent/Checkpoint has the methods of agent/src/agent_app/core/agent.py that edit a
-- checkpoint, as functions from its messages to the update that they hand to the graph, Config the
-- two readings of the models in core/config.py, Tracing the gate and the flush of
-- core/observability.py, Tools the search tool and the calculator of tools, Graph the parts of the
-- graph of graph/react_graph.py, the request of core/llm.py and what the agent hands to its graph.
--
-- Corpus: Windows splits law texts (legal_core text.py), Retrieval is the search of retrieval.py with
-- the stores, the reranker, UUIDs and the quoting of URLs as parameters, Ids has ids.py and Lawgo the
-- parsing of lawgo.py. Ingest and Pipeline are db_admin/pipeline/lawgo_ingest.py and Delegation is
-- delegation_build.py beside it, on what law.go.kr answers. Vector (legal_infra vector_qdrant.py)
-- has the client of Qdrant as a record of calls on an abstract state, each of which may raise,
-- Fuseki the checks and the text of the queries of graph_fuseki.py, Select the binding of values in
-- a template there, Embedding the batches of embedding_remote.py, Local the models of embedding_flag.py and reranker_flag.py.
--
-- Examples: a conversation, requests, a configuration, a search index, histories, drives, logs and
-- texts at which the theorems are applied.
--
-- Bounds. The ancestors of a fork are followed on fuel, the number of threads, which is enough
-- since a fork is made after its parent. A number is printed on fuel, the number itself plus one.
-- The windows of a text are cut on fuel, its length, since each window starts at least one character
-- later. A stream is counted in polls, and the calls for the parts of a body are counted.
-- All other recursion is structural.
--
-- Not modelled: the agent's graph and models, which are LangGraph's, so that an agent is a record of
-- functions that return rounds; the routing of the HTTP framework and the registration of routes and
-- middleware; what psycopg, the file system and the local models do, whose answers are arguments;
-- logging; the thread pool, the event loop and the shutdown of the pumps; the container, which only
-- passes arguments on; an explicit `seq` of add_message, which no caller gives; the frontend; the transport to law.go.kr, Qdrant and Fuseki, whose answers are
-- arguments; the scripts.
pub mod Prelude
pub mod Text
pub mod Store
pub mod Run
pub mod Manager
pub mod Corpus
pub mod Agent
pub mod Json
pub mod Env
pub mod Api
pub mod Boot
pub mod Examples
