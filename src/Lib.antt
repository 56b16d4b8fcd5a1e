-- ===== src/Lib.antt =====
-- Verification of monitc, an operations workspace for servers: a desktop client (src/main, the main
-- process of an Electron application) and a hosted platform (platform/apps/api/src, a Fastify API and
-- a collector over PostgreSQL and Redis).
--
-- Conventions. Code that changes variables or objects becomes functions from a state record to the
-- next one. What the code calls outside the repository (Electron, ssh2, timers, the clock, random
-- values, the database server) enters as arguments and events, and what it is asked to do is recorded in
-- the state. An `await` splits a function in two: the part before it, and an event for each way in
-- which it ends. Times are milliseconds as natural numbers; identifiers that the code only compares
-- are numbers or texts. Measured values are of an abstract type `Number` (Number.antt), since the
-- program only compares and adds them.
--
-- Desktop/Updater.antt, with Notes and Commands below it, is src/main/updater/app-updater.ts: its
-- module variables are the record `Updater`, each listener and command is a function of the same name
-- in snake case, and `step` takes any event that can reach the module. Logging and the flags that are
-- set on electron-updater are not modelled.
--
-- Desktop/Alerts.antt and Desktop/Alerts/Connection.antt are src/main/alerts/alert-engine.ts: the
-- first evaluates metric rules, the second keeps the timers of connection rules. The status that
-- arrives there comes from the SSH manager (Desktop/Connectivity.antt). The texts of messages are
-- not modelled, and one evaluation runs to its end before another handler changes the data.
--
-- Desktop/Ssh.antt and Desktop/Ssh/Pool.antt are src/main/ssh/ssh-manager.ts for one server: entries
-- stand in a heap because closures keep old ones, and Pool has the channel slots of an entry.
-- Commands that stream, the test of a connection and the bytes on a channel are not modelled.
--
-- Desktop/Store.antt is src/main/store/store.ts with the handlers of src/main/ipc/ipc-handlers.ts,
-- src/main/ipc/ipc-handlers-devops.ts and src/main/ipc/aws-ipc.ts that change the application data: a
-- variable and a file, both of which the handlers write. A file that cannot be read is not modelled.
--
-- Desktop/Monitors.antt has the timers of src/main/monitors/system-monitor.ts, docker-monitor.ts and
-- kubernetes-monitor.ts for one server, and Desktop/Monitors/Network.antt the traffic of interfaces, from
-- lines that are already taken apart. The other outputs of remote commands are not modelled.
--
-- Desktop/Kubernetes.antt has two commands of src/main/ssh/k8s-management-commands.ts, from the values of
-- the user to what a shell makes of the text.
--
-- Platform/Scopes.antt is platform/apps/api/src/auth/scopes.ts, and Platform/Sessions.antt is
-- platform/apps/api/src/auth/session.ts over the table `refresh_sessions`: SQL statements become
-- functions on the list of rows, and a transaction that fails leaves the list as it was. Signing of
-- access tokens and encryption of fields are left out.
--
-- Platform/Evaluator.antt is platform/apps/api/src/services/alert-evaluator.ts over the tables of rules,
-- events and samples, with one evaluation of a server at a time.
--
-- Platform/Billing.antt is platform/apps/api/src/services/billing-state.ts and `persistApplePurchase`
-- of platform/apps/api/src/routes/mobile-billing.ts; Platform/Billing/Webhooks.antt is
-- `processNotification` of the same file, where the process may end on the way. The keyed hash, the
-- identities of new rows and refusals by the database are arguments; routes, signatures and ciphertexts
-- are not modelled.
--
-- Platform/Collector.antt is platform/apps/api/src/worker/collector-loop.ts: locks in Redis, rates, one
-- collection and its writes; Platform/Collector/Cycle.antt has the batches and the counter of a cycle,
-- and Platform/Collector/Retention.antt the deletion of old rows. What an SSH collection answers is an
-- argument. Error codes, the query for work and the alerts of agents are not modelled.
--
-- Platform/Guard.antt is the revocation of access tokens in platform/apps/api/src/auth/guard.ts, where a
-- lookup in Redis is split at its `await`; tokens and scopes are not modelled. Platform/Retry.antt is
-- platform/apps/api/src/lib/startup-retry.ts.
--
-- Platform/Members.antt has registration and the members of workspaces: platform/apps/api/src/routes/
-- workspace.ts, `/register` of platform/apps/api/src/routes/auth.ts and `/account` of
-- platform/apps/api/src/routes/mobile-auth.ts, over the tables that they change. The bootstrap of the
-- administrator (platform/apps/api/src/services/bootstrap-admin.ts), logging in and changes of the
-- subscription are not among its requests.
--
-- Platform/Servers.antt has the routes of platform/apps/api/src/routes/servers.ts that change servers and
-- pairing tokens; the vault is an argument. Tests of connections are not modelled.
--
-- Platform/Accounts.antt is the sign-in with a provider and the linking of one in
-- platform/apps/api/src/routes/mobile-auth.ts; what jwtVerify and the nonce say of a token is part of the
-- token. Passwords, passkeys and lists of sessions are not modelled.
--
-- Platform/Access.antt is platform/apps/api/src/routes/access.ts: the guards of its routes up to the work
-- that reaches a server, and tickets for terminals; Platform/Access/Terminal.antt is the socket of a
-- terminal. Platform/Shell.antt has the command lines of these routes as lists of character codes, and
-- Platform/Shell/Words.antt says how a POSIX shell splits them into words. The normalisation of paths is an
-- argument; transfers of files and recursions over directories are not modelled.
--
-- Loops are recursions on lists or on the number of rounds that are left. `batches`
-- (Platform/Collector/Cycle.antt) takes fuel, for which the length of its list is enough, as shown
-- there; `decimal` (Platform/Shell.antt) takes the number of digits, four for numbers up to 2000.
-- Modules below a component hold its proofs; a module called Tests holds runs at concrete inputs.
pub mod Prelude
pub mod Number
pub mod Desktop
pub mod Platform
