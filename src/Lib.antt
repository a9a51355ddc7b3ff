-- ===== src/Lib.antt =====
-- Verification of Featureform: the metadata service, the coordinator of jobs, the runners that
-- materialize features, the stores in memory, and the serving.
--
-- Featureform keeps a graph of resources: users, providers, entities, models, and sources,
-- features, labels and training sets, each a group of variants. The metadata service
-- (metadata/metadata.go) takes requests over gRPC, checks the names, stores each resource through
-- an interface `ResourceLookup`, starts a job for the variants that need work, and tells the
-- resources that the new one depends on, directly or through others, that it exists. The interface
-- has two implementations, a Go map (metadata/metadata.go) and rows in etcd (metadata/etcd.go). The
-- offline store (provider/offline.go) holds the records of features and labels and joins them into
-- training sets, each label record with the features' values at its time. The coordinator
-- (coordinator/coordinator.go) executes the jobs that stand in etcd, under a lock each: it waits
-- for sources, registers tables and starts runners. A materialization (runner/materialize.go) is
-- cut into chunks, which runners (runner/copy.go) copy into an online store (provider/online.go).
-- The serving (newserving/) streams training sets and looks up features.
--
-- Files. Common and its children: results of Go's (value, error) pairs, actions on a state, lists
-- and association lists. Text: strings as bytes, and the tests of the package `strings` that are
-- called. Metadata.Types, Metadata.Names, Metadata.Messages: ids, types, errors,
-- resourceNamedSafely and the messages of metadata/proto/metadata.proto. Metadata.Keys: createKey,
-- GetJobKey and GetScheduleJobKey. Metadata.Resources: a file for each type of resource, with ID,
-- Dependencies, Notify, UpdateStatus and UpdateSchedule; Metadata.Resource: the interface
-- `Resource` over all of them. Metadata.Lookup: the interface `ResourceLookup` as a record, and in
-- Metadata.Lookup.Local the Go map. Metadata.Server: genericCreate and propogateChange over any
-- lookup. Metadata.Handlers: the RPC handlers. Metadata.Etcd: etcdResourceLookup over a client and
-- encoders that are parameters. Provider.Offline: ids and records (Types), memoryOfflineTable
-- (Table), the iterators (Iterator) and memoryOfflineStore (Store). Metadata.Client: the calls of
-- metadata/client.go that the coordinator and the serving make, over the handlers, in
-- Metadata.Client.Requests those that create resources, in Metadata.Client.Lists those that list
-- and look up, and in Metadata.Client.Fetches what a resource fetches. Provider.Online: the online
-- store in memory. Runner.Chunks, Runner.Copy, Runner.Materialize: the plan of the chunks, the
-- copying of one and the run that starts them; Runner.Kubernetes: the specification of a job
-- (runner/kubernetes.go) and what a worker does before it runs its runner
-- (runner/worker/worker.go); Runner.Watchers and Runner.Library: watchers and the registry of
-- factories. Coordinator.Templates, Sources, Registrations, Jobs: templateReplace, the waits for
-- sources, the four job functions, and the rows of jobs with ExecuteJob; Coordinator.Services: what
-- they call through interfaces. Serving.Values and Serving.Streams: newserving/serialize.go and
-- newserving/serving.go. Api: the RPCs of the gateway api/api.go, over the handlers they forward
-- to; the loop of its ListFeatures, which ends only when the client goes away, runs on fuel, and a
-- run that is out of it is still_runs. The children of a file that hold no code hold its proofs;
-- Tests and Samples hold runs and concrete inputs.
--
-- State. An operation that changes state takes it and returns it beside its result, errors
-- included. The server is generic in the state of its lookup; its theorems ask of the lookup that
-- it be reliable (Metadata.Lookup.IsReliable). A Go map is an association list; where the source
-- ranges over one, a parameter `order` stands for the order, and the theorems hold for every order
-- that keeps the elements. Resources of the Go map are pointers that Notify changes in place: since
-- each changed resource is set again under its id at once, the model passes values. A runner of a
-- chunk is modelled while nothing else uses its stores: goroutines that write one Go map at once,
-- which has no lock, are not. For the types of the stores in memory provider.Get makes a new, empty
-- store, and so does the factory of the runners. The coordinator's state is any type over which a
-- lookup and the services are given, the metadata included; what others do while it sleeps is a
-- parameter.
--
-- Parameters. The etcd client, with what etcd documents of a cluster that answers
-- (Metadata.Etcd.Cluster.Answers), and the JSON and protobuf encoders, with the round trip of what
-- is encoded. Neither is code of the repository. The etcd sessions, locks and transactions, with
-- what etcd documents while a lease lasts (Coordinator.Jobs.Attempts.Holds), the client of
-- Kubernetes, whether it sets an index in the pods of a job (none, where the job is not indexed),
-- strconv.Atoi, the quoting of identifiers by pgx, and the interfaces JobSpawner, Runner and
-- OfflineStore as the coordinator calls them. The clock and the identifiers of uuid are arguments.
--
-- Bounds. propogateChange calls itself on what it finds; the model bounds the depth of the calls by
-- five. Dependencies lead from training sets to features and labels, from those to sources, from
-- sources to their groups, users and providers, and so on down: Metadata.Server.Graph ranks the
-- types, the rank falls with every dependency, and none is five or more, so the bound is never met.
-- AwaitPendingSource has fuel for two polls more than its timeout has seconds, which is enough; the
-- wait of runSQLTransformationJob has no timeout, and its fuel stands for how long one watches.
-- TrainingData takes a turn for each row and one more. The plan of chunks and their bounds are
-- computed in int64, as the 64 bits of the number with wrap-around written out. An int that is
-- served is its 64-bit pattern, of which 32 bits are kept. strings.TrimSpace knows the white space
-- of ASCII. Numbers are natural: times are nanoseconds from Go's zero time and all in UTC, where
-- Go's == on times agrees with their order; an iterator's index counts from 1 where Go's starts at
-- -1; the bounds of a segment are not negative.
--
-- Not modelled: log lines, metrics, the set-up of gRPC servers, of the etcd client and of Typesense
-- search; the dashboard; of the API gateway (api/api.go) CreateSourceVariant, the serving and the
-- HTTP pages; the client's accessors of single fields and its connection; the watch loops of the
-- coordinator, which start an execution for each event; the runners that hand a job to a provider,
-- the client of Kubernetes and its schedules; JSON configurations; the SQL, Redis and Cassandra
-- stores, which send commands to databases. Texts of errors are kept only as the data that they
-- quote.
pub mod Common
pub mod Text
pub mod Provider
pub mod Metadata
pub mod Runner
pub mod Coordinator
pub mod Serving
pub mod Api
