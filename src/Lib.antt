-- ===== src/Lib.antt =====
-- go-study: models of the repository's Go programs, and what has been proved of them.
--
-- The repository holds independent exercises: an RPC framework, a web framework, an object-
-- relational mapper, caches, a graceful shutdown and a code generator, some in several versions.
-- Modelled are the parts that compute; the exercises do not call one another, and share the
-- helpers of Prelude alone. Within the RPC framework a client and a server exchange the messages
-- of the codec over a connection; within the web framework the server serves a request through
-- the router; within the mapper the sessions run what the builders build.
--
-- - Prelude: numbers with Boolean tests, results, lists and byte strings over the native numbers.
--   A Go string and a byte slice are lists of bytes, a map is an association list.
-- - Rpc.Message (rpc/homework1/message/message.go): EncodeReq, DecodeReq, EncodeResp and
--   DecodeResp as encode_req and so on. The encoder's buffer is a record of what lies in front of
--   the slice `cur` and of `cur` itself; each copy, store and advance is a step that may panic.
--   The decoder's slices are taken to have no spare capacity, so a bound past the length panics.
--   The entries of a map come in the order in which `range` hands them out, which is arbitrary:
--   every order is a request of the model. The uint32 sums wrap around at 2 ^ 32. The loop over
--   the metadata recurses on fuel, as many rounds as there are bytes in the head: each round
--   takes a byte. Children: Encode, Decode and RoundTrip go through the layout of a message,
--   Totality is about arbitrary input.
-- - Rpc.Message.Stream (rpc/homework1/tcp.go): ReadMsg as read_msg, over a connection that is the
--   list of the chunks in which its bytes arrive, and then ends; Arriving is about what is read.
-- - Rpc.Server (rpc/homework1/server.go, with the interfaces of compression and serialization):
--   the registration of services and codecs, and reflectionStub.invoke. What reflection finds of
--   a service is a parameter: its methods by their names, each with the type of its argument. A
--   panic and a wait that never ends are results (Stop). Conn has handleConn: read_meta,
--   handle_req and handle_conn, which has fuel for a number of messages; Ends says how much is
--   enough.
-- - Rpc.Client (rpc/homework1: client.go, context.go): doInvoke, Invoke, and the function that
--   InitService makes, as call, over a transport that is a parameter: the pool and a connection.
--   EndToEnd puts a server at the other end of the transport, which takes one message. Served is
--   about what that server answers, Exchange about a message there and one back, Returns about
--   what the client's function returns. Times are opaque, with a format that rounds them.
-- - Rpc.Balance (rpc/homework2/loadbalance): the pickers RoundRobin (roundrobin/balancer.go),
--   Weighted (roundrobin/weight_balancer.go), LeastActive (leastactive/leastactive.go) and
--   Fastest (fastest/balancer.go), each with what Build makes, Pick as a function of the picker's
--   state, and, for the last, updateRespTime. Connections, addresses and filters are opaque.
--   Counters and weights wrap around at the width of their type. In LeastActive the copies that
--   requests hold are part of the state, and picks and ends of requests are steps.
--   Weighted.Weights is about the weights, Fastest.Picks about the pick, Fastest.Refresh about
--   the refresh.
-- - Web.Router (web/homework2/route.go): addRoute with childOrCreate as add_route, a function
--   from the trees to the trees and a panic; no two parents share a node, so nodes are values.
--   Find has findRoute, childOf and findMdls. Handlers and middlewares are opaque. Shape has the
--   invariant of the trees, Registered the effect of a registration on a later match.
-- - Web.RegexRouter (web/homework1/route.go): an earlier router, with regular expressions;
--   package regexp is a parameter. The parent has the nodes and what creates a child, Nodes the
--   kinds of segments, childOrCreate and childOf, Routes addRoute and findRoute. Shape and
--   Invariant are about the trees; Pattern says what one route matches, Placed and Single
--   compare; Again and Twice are about a route that is registered twice, with Named and Reached
--   on the paths of the nodes.
-- - Web.Server (web/homework2: server.go, context.go, middleware.go, middleware/errhdl and
--   middleware/recovery): ServeHTTP as serve_http, over the trees of Web.Router. A handler maps
--   the context to what it leaves behind, to a panic or to the end of the program. A middleware
--   is a function of handlers, so a panic while ServeHTTP puts the middlewares on is left out.
--   The parsing of forms, queries, numbers and JSON is a parameter or a part of the request.
--   Chain is about the order of the middlewares, Recovery about panics.
-- - Orm (orm/homework3): Syntax has the parts of a query (select.go, table.go, expression.go,
--   predicate.go, column.go, aggregate.go, assignment.go), Select the builder of a SELECT
--   (builder.go, select.go), Modify those of INSERT and UPDATE with the upserts of both dialects
--   (insert.go, updater.go, dialect.go), Compose the methods that put queries together. A builder
--   only appends to its text and its arguments, so a step is what it appends, or the error that
--   ends the build (Output). The model, the dialect's quote, the conversion of an int to `any`
--   and the reading of a field by reflection are parameters. An entity is what the registry is
--   asked about. A builder is built once, as its text is not reset: a subquery that stands in a
--   query twice is built afresh each time here, where the code keeps the first text in front of
--   the second. Clean says which names and raw parts a query may hold for its placeholders to be
--   counted; Balanced, Names and Placeholders lead to SelectCounts and ModifyCounts; Behaviour
--   has the other theorems.
-- - Orm.Homework1 (orm/homework1: select.go, aggregate.go, column.go, expression.go,
--   predicate.go): the first SELECT builder, on the steps of Orm.Output. Lift makes queries of
--   homework3 of its queries, Expressions and Agrees compare what both builders write; Orm.Laws
--   has the laws of the steps.
-- - Orm.Registry (orm/homework3/model: model.go, registry.go): Register, Get, parseModel,
--   parseTag and underscoreName, over the names and tags that reflection finds; names are ASCII.
--   The model is the one that the builders take as a parameter; Tags says what column a field
--   has, Columns is about what they find in the model.
-- - Orm.Session (orm/homework3: core.go, db.go, transaction.go, raw_query.go, result.go,
--   middleware.go): DoTx as do_tx, exec and getHandler. database/sql is a parameter, with its
--   laws in Atomic, where a transaction is a step on the committed view; Middlewares is about the
--   order in exec and get. A context that is done shows in what the database answers.
-- - Cache.Lock (cache/homework2: redis_lock.go, retry.go, lua): the scripts over a Redis that is
--   a parameter, with its laws, and Client.Lock, createLock, Refresh, Unlock and AutoRefresh in
--   Client. A script is one step; what other clients and the clock do comes between the steps. A
--   call may get lost on its way there or back. The loop of Client.Lock has fuel: one more than
--   the intervals that the retry strategy, a parameter, still gives is enough. Exclusion is about
--   other clients' scripts, Acquire about taking and giving back, Renewal about AutoRefresh.
-- - Shutdown (advanced/graceful_shutdown/service: shutdown.go, shutdown_answer.go): StartAndServe
--   and shutdown. Groups has a loop that starts goroutines, with its WaitGroup; Steps the
--   application, its servers and the events: a step of the main goroutine, a signal, the end of
--   the program, a request, the return of Shutdown or of a callback. A request reads the flag of
--   its server as it was written last or late, as every read has it since it came to be seen,
--   which is an event, too: the program does not synchronise the flag. A signal in front of
--   signal.Notify ends the program. happen says what an event does, and when it is possible; run
--   is a sequence of events. Flags is about the flags of the servers, Phases has what holds in
--   each phase of the main goroutine, Order and Rejects what follows for every sequence,
--   Completes that the shutdown can come to its end: its fuel is the number of steps that are
--   left at most.
-- - Annotations (advanced/template/gen/annotation/annotation.go): newAnnotations as
--   new_annotations, over the texts of the comments; Printed is about comments that were written.
--
-- Not modelled: sockets, databases, reflection, etcd and gRPC, generated code, mocks and
-- examples; the second version of the mapper, and what is behind the SELECT builder of the first;
-- the server and the middlewares of the earlier web framework; the access log, the metrics and
-- the tracing; the cache with a memory bound and the code generator behind the annotations.
-- Aliasing between the slices of middlewares that `append` may share is left out, and so are
-- goroutines, but for the clients of the lock and the goroutines of the shutdown, whose steps are
-- interleaved.
pub mod Prelude
pub mod Rpc
pub mod Web
pub mod Orm
pub mod Cache
pub mod Annotations
pub mod Shutdown
