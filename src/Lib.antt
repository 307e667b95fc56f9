-- ===== src/Lib.antt =====
-- dftp, a distributed read-only file server: each node announces the files of a local directory, the
-- nodes exchange the announcements, and each node serves the whole tree over FTP and HTTP, reading a
-- file from its own disk or through the node that owns it.
--
-- Parts, and the files that model them (source paths from the repository's root):
--   Base, Strings     shared helpers: texts as lists of bytes, integers, outcomes (a result, a panic,
--                     no fuel left), association lists; strings.Split, Join, TrimPrefix and so on
--   FilePath          filepath.Clean and filepath.Join; FilePath/Elements has them on paths of plain names
--   Fat               src/dftp/dfsfat/fat.go, fileinfo.go: the tree. TreeNode is `TreeNode`, its map of
--                     children a list of pairs (`ChildNodes`); Seek is `seek`; Fat/Paths describes it
--                     by lists of names, Fat/Names for paths that are written out;
--                     Fat/Trees and Listed are about trees without two children of one name
--   Update            src/dftp/dfsfat/update.go: Update is `update`, its recursion `update_files`, the
--                     grouping `group_announcements_by_filepart`. Update/Target gives the independent
--                     description: `take_in` is what a sequence of announcements does to the stat at
--                     one path. Update/Stats relates the two, Update/Merge, Newest and Runs build on it;
--                     Update/Owners is about recalculateOwner, Shape about which nodes
--                     there are, Trees about the names in a directory
--   LocalFs           src/dftp/localfs: `scan_once` (ScanOnce), `local_open_read` (OpenRead);
--                     LocalFs/RoundTrip relates the two, LocalFs/Confined is about `..`
--   Cluster           src/dftp/cluster/cluster.go and UpdateNode, ScheduleGreet, SchedulePush of
--                     communication.go: the state of a node. A `go` statement appends to its `tasks`
--   Exchange          the rest of src/dftp/cluster/communication.go: `greet_node`, `push_full_update`,
--                     `receive_update`, `combine_host_and_port`
--   HttpUtils         src/dftp/httputils/httputil.go: http.ServeMux as an interface of one operation and
--                     the laws that Go documents, and the panic catcher; HttpFace/Routes and
--                     Mgmt/Routes are the two ServeHttp functions over it
--   Mgmt              src/dftp/cluster/mgmthttp.go, multicastdiscovery.go, and panicCatcherMiddleware of
--                     src/dftp/httputils/httputil.go: `http_cluster`, `http_join`, `http_update`,
--                     `on_datagram`; Mgmt/Discovery has the start of the discovery and the pings
--   Node              runs of a node: `Step` is one handler or one call that `go` started, in any order.
--                     Node/Handlers and Node/Steps reduce an invariant of the steps to one of six
--                     changes (`Keeps`); Tracked, Named, Present, Lost and Pings are such invariants.
--                     Node/Names, Guarded and Knows are about steps that only certain names and
--                     updates reach.
--                     Node/Progress is about a pending push, Meets and Discovered about two nodes,
--                     Node/Heard about the updates that a run takes in, Joins about a node that is told to join
--   Proxy             src/dftp/cluster/proxy.go: `open_read` (OpenRead); Proxy/Redirects puts nodes into
--                     a network; Proxy/Cache has `get_http_proxy` (GetHttpProxy) and `director`
--   Ftp               src/dftp/ftpface/server.go: the driver's operations; Ftp/Server and Ftp/Address its
--                     start (`serve_ftp`)
--   HttpFace          src/dftp/httpface/server.go: `fs` (Fs), `serve_file` (ServeFile), `find` (Find);
--                     HttpFace/Confined is about the files that it and the FTP driver read, Remote about
--                     those of another node, Shared about the name of a scanned file in the tree,
--                     Find and Same about the listing of all paths, Dirs about that of a directory
--   Utils             src/dftp/utils: `SortSlice` as a relation, since sort.Sort is not part of the
--                     program; HttpFace/Listings relates it to the order that `fs` uses;
--                     `get_traceback` (GetTraceback)
--   Main              src/dftp/main.go: the options, and the node that `main` starts with; Main/Servers has
--                     the starts of its servers (`serve_main`). Main/Launches and Nodes are about nodes that were
--                     started so and run since
--   System            any number of started programs and the network between them: an `Event` sends a
--                     message or is a step of one node, which messages that were sent can reach, in any
--                     order, late, more than once or never; an update is sent only in a call of
--                     PushFullUpdate that was started. System/Known and Members are about what
--                     gets around, Settled, Alone, Listing and Serves about nodes that have heard all,
--                     Queued, Deliver, Spread, Greet and Live about what can come next
--   Tests             runs at concrete inputs, and a witness for each result with hypotheses
--
-- How the parts interact: `scan_once` and `receive_update` change the tree by `update`; the handlers of
-- Mgmt and the tasks change the peers by `update_node`; Ftp and HttpFace look a path up with `seek` and
-- read it with `open_read`, which sends requests to the `fs` of other nodes.
--
-- Fuel: `update_files` takes one unit for each level of the tree that it enters. `update` gives it
-- `levels`, more than the number of parts of any announcement. The fuel of `network` counts the nodes
-- that a request passes through.
--
-- Arguments of the model are what the program gets from outside: the time, what filepath.Walk visits
-- and os.Open finds, what a peer answers, the callback of the FTP server, which sockets can be opened (`Sockets`), what
-- encoding/json makes of an update on its way (`json`), and what net/http reads of the URL that
-- OpenRead writes without escaping the path (`reads`). A step is atomic: the locks
-- and the interleavings within a handler are not modelled. The order in which Go visits a map is the
-- order of the list that stands for it, and so any order. A 64-bit integer is an unbounded one: the
-- program only compares and copies those that it is given, and counts redirects up to 2.
--
-- Not modelled: what encoding/json does to invalid UTF-8 in the names and addresses of a cluster info or
-- of a ping, HTTP, JSON, UDP and FTP as protocols, logging, HTML, dates and content types (a
-- listing is a list of rows), MakeTimeoutingHttpClient, which only sets fields of an http.Client, the
-- parsing of flags, the loop in which `main` sleeps, and the
-- copy of github.com/goftp/server.
pub mod Base
pub mod Utils
pub mod Strings
pub mod Fat
pub mod Update
pub mod FilePath
pub mod LocalFs
pub mod Cluster
pub mod Exchange
pub mod Mgmt
pub mod Node
pub mod Proxy
pub mod Ftp
pub mod HttpFace
pub mod Main
pub mod System
pub mod Tests
pub mod HttpUtils
