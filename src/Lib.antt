-- ===== src/Lib.antt =====
-- cluster-monitor: the agents that collect the telemetry of GPU clusters, and the server that stores
-- it and answers queries on it.
--
-- An agent lists the nodes and the pods of its cluster and reads the GPU metrics of Prometheus
-- (agent/internal/collector), and sends each result as one request (agent/internal/sender) to the
-- worker service (server/internal/server/cluster_telemetry.go). This stores each message, encoded,
-- as a row of a history, under the cluster that the credentials name (server/internal/store). The
-- query service reads the histories of all clusters of a tenant back, puts them into buckets of one
-- hour, and answers with one datapoint for each hour of the requested window: of the snapshots of
-- the clusters (server/internal/server/cluster_snapshot.go) or of the GPU usages of their nodes
-- (server/internal/server/gpu_usages.go).
--
-- The files, and the code that they are about:
--   Prelude, Prelude/*   names, Boolean tests, the signed integers of 32 and 64 bits, orders.
--   Go/*                 what the program uses of Go: results, instants, maps, sorting, numbers in
--                        texts (Strconv), chains of tests (Checks), and code that reads and changes
--                        the world outside (Exec). Go/Time has the methods of time.Time that the
--                        program calls, at whole seconds of duration.
--   Api                  the messages of api/v1, with the fields of the Go structs.
--   Agent/Kube           what the agent reads of Kubernetes, and the client: parameters.
--   Agent/Snapshot       buildSnapshot and requestedGPUs of collector/cluster_snapshot.go;
--                        Snapshot/Collect has the calls of the client around them, Snapshot/Nodes
--                        the map of the nodes, Snapshot/Bounds and Snapshot/Exact the sums.
--   Agent/Dcgm           collector/prometheus: NewDCGMMetricKey, QueryDCGMMetric, queryRange.
--   Agent/Telemetry      collector/gpu_telemetry.go: buildSampleMapByHost, computeMaxAvg,
--                        buildGPUTelemetryMessage; Telemetry/Collect has collect and
--                        buildHostnameToNodes, Telemetry/Entries the entries of the message.
--   Agent/Loop           Start of collector/collector.go and of sender/sender.go, two goroutines
--                        with a channel between them, as a step relation; Loop/Fifo, Loop/Progress
--                        and Loop/Round are about what they reach.
--   Agent/Config         agent/internal/config/config.go: Validate.
--   Agent/Command        agent/cmd/run.go, SetupWithManager and Parse; Command/Requests sets the
--                        requests of the agent against the worker service.
--   Store                the methods of server/internal/store on the three tables, over a database
--                        and a clock that are a parameter (Store/Database: Db, and IsLawful for
--                        what gorm and SQL document). Store/Rows has the rows, Store/Registered
--                        and Store/Upsert the table of clusters as a map, Store/Invariant its
--                        indexes, Store/ReadOnly actions that write nothing. Store/Races has
--                        many calls of CreateOrUpdateClusterSnapshot at a time, statement by
--                        statement.
--   Server/Window        getStartEndTime; Window/Bounds describes its result by arithmetic.
--   Server/Tally         the loop of both calculate...Values functions over histories and nodes,
--                        and the collection of all keys, for any kind of node, key and figures;
--                        Tally/Groups has the stat of one key, Tally/Keys and Tally/Noted the keys,
--                        Tally/Order the histories in another order.
--   Server/Buckets       the buckets and the loop over the hours, which both queries share.
--   Server/Gather        the loop of both queries over the clusters.
--   Server/Auth          who calls: fakeAuthInto, extractClusterInfoFromContext.
--   Server/Codec         proto.Marshal and proto.Unmarshal, a parameter.
--   Server/Snapshots     getGroupingValue, getAllGroupingValues, calculateSnapshotValues;
--                        Snapshots/Answer and Snapshots/Handler are ListClusterSnapshots.
--                        Snapshots/Hours describes a whole response hour by hour, Snapshots/Order
--                        and Handler/Determined what it does not depend on.
--   Server/Usages        getAllClusterNodes, calculateGPUUsageValues; Usages/Answer and
--                        Usages/Handler are ListGpuUsages, Usages/Written has the figures of a
--                        node as folds.
--   Server/Telemetry     SendClusterTelemetry, processClusterSnapshot, processGPUTelemetry;
--                        Telemetry/Partial has what it stores when it fails, Telemetry/Success when
--                        it does not fail.
--   Server/Visible       both services together: a snapshot that is sent, and a later query.
--   Server/Shell         Run of both services, with the interceptors in front of the handlers;
--                        Shell/Standalone has both services without authentication.
--   Server/Config        server/internal/config/config.go: Validate.
--   Server/Command       server/cmd/run.go, up to the start of the three services, and Parse.
--   Pipeline             all of it: the agent of one cluster, whose sender calls the handler of the
--                        worker service over a connection, between the requests of other clusters
--                        and queries. Pipeline/Exact has the whole agent, Pipeline/Shown a query
--                        behind it, Pipeline/Round a round in which nothing fails.
--   Tests/*              runs on small inputs, a database in lists, and the theorems at inputs
--                        that meet their hypotheses.
--
-- Bounds. Integers keep their wrap-around at 32 and 64 bits; instants saturate as in Go's time
-- package. The loop over the hours has rounds, one for each hour between the two instants and one
-- to leave it; it is shown that they are enough. The loops of the agent have no bound: they are a
-- relation between states, and what is reached is any finite run.
--
-- Parameters. Marshalling, a gRPC connection, the database, the clock, what the authentication library finds in a
-- context, the clients of Kubernetes and Prometheus, quantities, controller-runtime, the validation
-- of the configurations of other repositories, and the operations of floating-point numbers are no
-- code of the repository: definitions take them as arguments, and theorems state as hypotheses what
-- they need of them. A database may fail at any statement, and returns rows in any order. A call of
-- a client is one step of the agent's goroutines, and between steps the world may change.
--
-- Not modelled: the texts of errors and log lines; the command lines; Stop, and the gRPC and gateway
-- code that protoc generates; the columns that gorm alone reads and writes (CreatedAt, UpdatedAt,
-- DeletedAt), and other writers between two statements of a request, but for those of
-- CreateOrUpdateClusterSnapshot, which Store/Races takes apart. Of the sender, the branch for a closed
-- channel, which nothing closes, and notifyCh, which its test sets. A panic of the agent ends its
-- goroutine, not the process. Of Go, the memory model: each step of a goroutine is atomic;
-- and the order in which it visits a map, for which the model takes the order of the insertions.
pub mod Prelude
pub mod Go
pub mod Api
pub mod Store
pub mod Server
pub mod Agent
pub mod Pipeline
pub mod Tests
