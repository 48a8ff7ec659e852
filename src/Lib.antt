-- ===== src/Lib.antt =====
-- grex is an OpAMP server: agents report to it over WebSocket or HTTP, it keeps the state of the
-- fleet in memory, flushes it to Postgres, and serves a read API, a web page and metrics over both.
-- Several replicas share one database, each holding the agents that are connected to it.
--
-- Parts, and the file that models each:
--   Fleet (internal/fleet): `Registry` is the sharded map of agents with Report, SetConnected, Get,
--     List and Sweep; `Report` is the body of Report for one agent; `Events` reads the calls of the
--     Events listener as moves of a small machine; `View` is view.go; `Stats` has the aggregates of
--     Registry.Aggregate and of the status handlers of internal/api and internal/ui.
--   Persistence (internal/persistence): `Store` gives each method of PostgresStore as the effect
--     of its SQL on the tables, and the DELETE of the purge worker; `Flush` is DirtyTracker and
--     Flusher, with `Flush/Interleaved` for flushes between which the registry goes on; `Session`
--     is SessionSnapshotter, with `Session/Seen` for what other replicas read after its passes;
--     `Connections`, `Jobs` and `Permissions` are the tables of agent_connections.go, jobs.go and
--     permissions.go; `Write` splits a write into batches, and `Concurrent` is runConcurrent of
--     write.go.
--   Opamp (internal/opamp/handler.go): the callbacks of one connection over the registry.
--   Api (internal/api): `Parse` reads filters from a query, `Filter` selects agents, `Merge` is
--     MergeAgents, `Page` reads the paging parameters, `Paginate` cuts a page with a bounded heap,
--     `Handler` and `Listing` answer the two agent reads, `Attributes` lists keys and values, `Jobs`
--     creates and partitions jobs.
--   Ui (internal/ui/ui.go): `Listing` has the paging parameters and the merge of the UI, which are
--     its own and not the API's, `Data` the data of the pages, `Sort` the order of the table and its
--     links, `Query` the query of a page, `Pages` the page numbers, `Times` durations and ages,
--     `Attrs` the attribute tables, `Yaml` the display of a configuration.
--   Web (internal/api and internal/ui together): the requests of the UI listener, from the route to
--     the status and the value that is answered with, and what the request leaves of the jobs.
--   Metrics (internal/metrics/metrics.go): the counters, which hear the registry's calls, and in
--     `Collecting` the gauges of a scrape.
--   Spiffe (internal/spiffe), Config (internal/config) and Server (internal/server): roles, the
--     loading and the checks of a configuration, the authorization of a request by its certificate
--     (mtls.go), and the routes, the TLS settings and the start and stop of the listeners (server.go).
--   Process (cmd/grex/main.go): `run`, which builds the parts above, starts them, waits, and stops
--     them with the last writes.
--   Synth (internal/synth): the checks on a run of synthetic agents and its TLS settings, the ramp
--     that starts them (`Launch`), one agent's life (`Run`), the report.
--   Base: the helpers shared by all of these; `Order` has three-way comparisons and sorting.
--
-- How state and calls correspond: a struct is a record with the source's field names, a Go map
-- is an association list, and an operation returns the new state with the listener calls it
-- makes. Each registry operation holds one shard's lock, so it is one step; a run of steps in
-- any order stands for the goroutines. Times are nanoseconds since Go's zero time as natural
-- numbers, and a difference of times is a signed integer without Go's saturation; a product of
-- durations, such as the eviction threshold, does not wrap at 64 bits. A TIMESTAMPTZ column
-- keeps whole microseconds: `micros` of Persistence.Store stands where a time is stored. A byte
-- string is a list of numbers, and upper and lower case are those of ASCII. The slices and sort
-- packages leave the order of ties open; the model sorts by insertion, and theorems on an order
-- assume that nothing ties.
--
-- Fuel: Write.chunk runs on the number of ids, and each batch takes at least one of them; Ui.Yaml.gcd
-- runs on its second number, which falls in each round; Base.Trim runs on the length of the text;
-- Ui.Times.decimal writes at most 20 digits and one more, enough for 64 bits.
--
-- Parameters: uuid.FromBytes, the capability bits of the protobuf library, json.Unmarshal,
-- strconv.Atoi, time.ParseDuration, the scheme that url.Parse finds, regexp.Compile,
-- net.SplitHostPort, os.Stat, the decoding of YAML and the environment; the heap of
-- container/heap, by what its documentation promises; tls.LoadX509KeyPair, os.ReadFile and
-- AppendCertsFromPEM, and the handshake of crypto/tls by what the documentation of ClientAuth
-- says; whether a template runs and which assets there are; which of the steps of main that call
-- other packages fail; whether a write reaches the database, a certificate loads or an address can
-- be bound is a function of its name, and the database's ids and times are arguments. The page of
-- River is a function of the request and of River's tables, which are an opaque text, to the new
-- tables and a status. What the listeners serve between the last flush of `run` and their shutdown is
-- given as the registry and the events it leads to, and whether Shutdown fails as a Boolean.
--
-- Ghost state: the worlds of Persistence.Flush.Interleaved remember for each agent the last write
-- that was made, which writes failed, and nothing in the steps reads these fields.
--
-- Not modelled: logging, the HTTP and OpAMP servers below the handlers, the text of templates, JSON,
-- the registration of metrics and their histograms, the flags and the other command line programs,
-- migrations, the ticker of the registry, and what River does with its tables and its scheduling of
-- the purge.
pub mod Base
pub mod Fleet
pub mod Persistence
pub mod Spiffe
pub mod Config
pub mod Server
pub mod Ui
pub mod Synth
pub mod Metrics
pub mod Api
pub mod Opamp
pub mod Process
pub mod Web
