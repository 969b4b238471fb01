-- ===== src/Lib.antt =====
-- The coap-gateway: a server that OCF devices connect to over CoAP (pkg/app/coap-interface), an HTTP
-- server for users, mediators and clients (cmd/northbound-interface), and the registry that both
-- share (pkg/registry): MySQL for accounts, tokens and resources, Redis for the pod that each
-- device is connected to.
--
-- The parts, and where their code stands in the repository:
--   Token       GenerateRandomString (pkg/registry/mysqlredisregistry.go): bytes of crypto/rand in
--               URL-safe base64.
--   Registry    pkg/registry. Schema has the five tables as lists of rows, the newest first, with the
--               next AUTO_INCREMENT key; Statements has one function for each SQL statement of the
--               code; World has the state that a call runs in (tables, Redis, the server's clock, a
--               counter of calls to the outside) and how a call ends; Accounts, Devices, Clients,
--               Presence, Refresh and Resources have the methods of MysqlRedisRegistry, step for step;
--               Interface is the interface of registry.go as a record, with this implementation;
--               Presence.Board is an abstract board of devices that Presence is compared with;
--               Writes has the statements that change the tables as one type;
--               Conserved has what the calls keep, and Owned which rows refer to a token; Laws has
--               what the handlers may rely on of any implementation; Catalog has InitDB and the
--               functions that create the tables.
--   Coap        pkg/app/coap-interface/handlers.go: Gateway has the messages, the device container
--               and the state of a handler; Account, Session, Publication and TokenRefresh have the
--               four handlers, over any implementation of the registry's interface.
--               Bridge has the HTTP handlers of pkg/app/coap-interface/main.go, which send a client's
--               request over the connection in the device container. Routes has the paths that
--               NewCoapServer and main register, and Default the handler of other paths.
--   Northbound  cmd/northbound-interface/handlers.go: Accounts, Provisioning, Clients and Routing have
--               the HTTP handlers, over any implementation of the registry's interface.
--               Its Routes has the paths that main registers. Kept, here and in Coap, has what every
--               handler keeps of the registry's state, and how it can end.
--   Http        what these handlers use of net/http and of the package strings.
--   Server      NewServer and setupTLS of pkg/app/coap-interface/server.go: Variables has the loop over
--               the environment, Numbers has strconv.Atoi, Tls the pools of certificates and the test
--               of a peer, Startup the server and the keepalive that it gives a connection, and Errors
--               the texts of pkg/app/coap-interface/error.go.
--   Sessions    the ClientContainer of pkg/app/coap-interface/server.go: connections that open and
--               close, in the order in which the mutex lets them in.
--   Keepalive   pkg/app/coap-interface/keepalive.go: the loop that pings one client, over the list of
--               what it meets.
--   System      the deployment: gateway processes at the addresses of their pods, the northbound
--               process and the databases, over a list of what happens to them (System.Happening); a
--               log.Fatal, and a panic that nothing recovers, ends a gateway process with all it has
--               in memory.
--   Boot        the main functions of pkg/app/coap-interface/main.go (GatewayMain) and
--               cmd/northbound-interface/handlers.go (NorthboundMain), as the calls that they make.
--   TestClient  examples/coapClientForTesting.go, a program that plays a device: the commands of its
--               prompt, over what is typed, and what becomes of them at the gateway (Online).
--   Examples    a concrete database engine, codec and history, and each theorem at one of them.
-- Prelude, Go, Map and Routes are shared: library names, lists and integers on native numbers, texts as
-- lists of character codes, association lists, and Go's ways to end (a return, a panic, log.Fatal,
-- a send that never proceeds) as a state monad that keeps the state in all of them.
--
-- The handlers of Coap call the registry through the record of Registry.Interface; where a theorem
-- says "the MySQL registry" that record is mysql_redis_registry, and otherwise it is arbitrary.
--
-- What is not code of the repository is a parameter. Engine has MySQL's comparison of texts under a
-- collation and of an integer with a text, what a column of a width stores, which calls fail,
-- whether a call that fails has been carried out all the same (its answer is lost), from which
-- table a DELETE over two tables takes its rows first, what crypto/rand reads, and what Redis
-- answers after its SETs; IsEngine, IsCache and Quiet state what theorems rely on: a text equals
-- itself, a value that fits is stored as it is, a successful read fills its buffer, the last SET
-- counts until its time to live ends, and, where a theorem says that nothing fails, that no call
-- does. Codec has CBOR, JSON and the writes of go-coap. SQL is read as MySQL runs it in strict
-- mode: a refused statement changes nothing, InnoDB tests foreign keys at each row, so that a
-- DELETE that takes a token before the row that refers to it is refused, UPDATE counts the rows
-- that change, a row that a query scans alone is the oldest match. The calls of one process run one
-- after another; that those of other processes come in between two statements of a call is modelled
-- for two registrations of one device (Registry.Devices.Race) and for any provisions beside all
-- other calls (Registry.Owned.Interleaved, Registry.Owned.Runs); contexts and deadlines are left
-- out. Json is encoding/json, Cloud is go-coap and the codecs as the test client uses them, Network
-- is http.Post, which may never return (the default client has no timeout), Connections is go-coap
-- as the bridge uses it, and Crypto is the file system with crypto/tls and crypto/x509. Mux is the
-- choice that go-coap and bone make among the registered paths, and Outside is envconfig, the MySQL
-- driver as it opens and pings, and whether a listener ends; IsOutside states that fields that are
-- not exported stay as they are and that a data source needs a slash.
--
-- There is no fuel: the loops of the code are structural recursions on rows and on events. Go's int
-- is 64 bits wide: the keepalive's durations wrap around (Prelude.Int.wrap_64), the seconds of a
-- token are far below the bound.
--
-- Not modelled: logging and printing; DeleteUser, which returns nil; the Endpoint and Bitmask
-- conversions of the codecs; the ticker, which nothing starts; the responses of the muxes to paths
-- that nothing is registered for; what the test client prints.
pub mod Prelude
pub mod Go
pub mod Map
pub mod Routes
pub mod Token
pub mod Keepalive
pub mod Registry
mod Examples
pub mod Sessions
pub mod Server
pub mod Http
pub mod Northbound
pub mod Coap
pub mod System
pub mod Boot
pub mod TestClient
