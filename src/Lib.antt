-- ===== src/Lib.antt =====
-- kubevoltracker records which pods, persistent volumes and claims a Kubernetes cluster has had, in a
-- MySQL database. A watcher for each resource type (watcher.go) reads events from the API server and
-- calls a data store (the interface of dbmanager/types.go); dbmanager/mysql implements the data
-- store.
--
-- Which file models what:
--   Base, Go: shared names; how a Go function ends (a result, log.Fatal, a panic, or fuel used up).
--   Util: util.go. Resources: resources/resources.go; Resources/Objects: resources/methods.go and the
--     objects of the Kubernetes API. DbManager: dbmanager/types.go. Events: events.go.
--   Watcher: watcher.go, with the handlers, the loop of a goroutine and the stop channels. ApiClient:
--     apiclient.go. Watcher/Connection, with the connections of a watch, and Watcher/Resume put the
--     parts together; Watcher/Mounts is about the mounts of a pod.
--   Mock: dbmanager/mock/mock.go. Main: kubevoltracker.go.
--   Kubectl: the package kubectl, by which the tests make resources. Kubectl/Host: the machine;
--     Config and Write: kubectl/resource_writer.go; Utils, Create, Update: kubectl/utils.go,
--     creator.go and updater.go. Deploy, Cleanup, Volumes, Storage and Reading prove what they do.
--   Mysql/Orders: the order in which the transactions of different goroutines commit.
--   Mysql/Testing: dbmanager/mysql/testutils/utils.go.
--   Mysql/Schema: dbmanager/mysql/schema.sql. A table is a list of rows, times are numbers.
--   Mysql/Conn: the connection to the server and the error values of database/sql.
--   Mysql/Sql: the SQL that the statements use.
--   Mysql/Tx: dbmanager/mysql/mysql.go; its children prove what a transaction does.
--   Mysql/Rv, Existence, Bind, Update, Delete, Insert, Util: the files of dbmanager/mysql with these
--     names (Rv: resource_version.go). A method `InsertPod` is the function `insert_pod`, the closure
--     that it gives to `runTx` is `insert_pod_tx`, and the text of a statement is a function from
--     tables to the number of affected rows and new tables.
--   Mysql/Setup: the start and the end of the manager, with the init and destroy functions of all files.
--   Mysql/View: the tables as maps from keys to rows, on which the effects are stated.
--   Mysql/Tests: the theorems applied at concrete tables and failures.
--
-- The server: every call may fail, by a schedule of failures that is part of the connection, one
-- entry for each call. A failed statement changes nothing; a deadlock (1213) also ends the
-- transaction, which the server has rolled back, and later statements commit by themselves; a failed
-- commit leaves the transaction rolled back; AUTO_INCREMENT counters are not rolled back. A schedule
-- is called honest if no failure pretends to be a duplicate key (1062). LIKE and INET_ATON are
-- parameters, since they depend on the collation; comparisons by = on texts are those of bytes. The
-- counts of affected rows are those that MySQL documents for a client without CLIENT_FOUND_ROWS.
-- Error texts are cut to their first words. The parameters of statements are taken to fit their
-- columns.
--
-- The watcher: a goroutine is a function of the signals that its select receives, in their order; the
-- clock is a number for each event. json.Unmarshal and what http.Get gives are parameters; for the
-- main program, what sql.Open gives.
--
-- The package kubectl: the file system is a list of nodes, and a schedule says which of its calls fail
-- and what a write that fails leaves in the file; that a parent directory is missing is one of the
-- failures. The command kubectl is a parameter: by its arguments, the files and the cluster it gives a
-- new cluster and says whether it ended well. json.Marshal and the order of an iteration over a map
-- are parameters. Strings has Go's strings.Split, path.Clean, path.Join and the verb %d.
--
-- The test utilities: the rows of a query and the conversions of rows.Scan are parameters; what is
-- logged is left out.
--
-- Not modelled: the tests, the Python load test, the SQL reports and the build files; the text of log
-- messages; and how flag.Parse splits the command line into flags with their values.
--
-- Fuel: `runTx` is a loop without a bound. Its fuel is the number of attempts; as many attempts fail
-- as there are entries on the schedule, so one more is enough, and that is proved.
pub mod ApiClient
pub mod Base
pub mod DbManager
pub mod Events
pub mod Go
pub mod Kubectl
pub mod Main
pub mod Mock
pub mod Mysql
pub mod Resources
pub mod Strings
pub mod Util
pub mod Watcher
