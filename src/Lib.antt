-- ===== src/Lib.antt =====
-- The mileage service: points accounts with optimistic locking, idempotency keys and a balance cache.
--
-- A request passes a handler (internal/server/handler), a usecase (internal/usecase), the aggregate
-- MileageAccount (internal/domain/mileage), the MySQL repositories (internal/infra/mysql) and the
-- Redis cache (internal/infra/redis). Grant and redeem read an account in a transaction, let the
-- aggregate change it, insert a transaction row under a unique idempotency key, and update the
-- balance if the version is still the one that was read; a conflict is retried, three attempts in all.
--
-- Which file models what:
--   Base, Base/Int, Base/Int64  shared names, lists, integers, int64 with its wrap-around
--   Errors, Effect              error values with errors.Is; calls that return, fail or panic
--   Domain, Domain/Account      internal/domain/mileage: account.go and transaction.go
--   Platform                    code outside the repository as a parameter: the SQL driver, the
--                               Redis client with its JSON encoding, the ULID generator
--   Mysql/Rows, Mysql/Tx        the row structs; tx.go (GetQuerier, RunInTx)
--   Mysql/MileageRepository     mileage_repository.go, a function per method with its SQL text
--   Mysql/Contract              what is relied on of MySQL, Redis and the ULIDs, as the record Server
--   Mysql/Effects, Mysql/Commit the methods and RunInTx against that contract
--   Tables, Tables/Ledger       the rows of the two tables, and when they are consistent
--   Cache                       cache.go
--   Usecase/Posting             grant.go and redeem.go as one definition over a Flow, with its proofs
--   Mysql/Listing               what the list relies on of ORDER BY, LIMIT and `id <`
--   Usecase/Transactions        transactions.go: pages, cursors and what following one gives
--   Usecase/Balance             balance.go, and when the cache agrees with the tables
--   GoText                      strconv.Atoi and Itoa as GetTransactions, the configuration
--                               and the metrics use them
--   Handler, Handler/Mileage    internal/server/handler: error.go and mileage.go
--   Domain/User                 internal/domain/user/user.go
--   Mysql/UserRepository        user_repository.go; bcrypt, clock and JWT library as a parameter
--   Usecase/Auth, Handler/Auth  internal/usecase/auth.go and internal/server/handler/auth.go
--   Usecase/Posting/Clients     the interleavings of the clients as steps, and what each keeps
--   Domain/Achievement, Mysql/AchievementRepository, Usecase/Achievement, Handler/Achievement
--                               the achievement events, from the handler to the INSERT
--   Middleware, with RequestId, RateLimit, Auth, Logger, Metrics
--                               internal/server/middleware, over the outside code that it calls
--   Router                      internal/server/router.go
--   Config                      internal/config/config.go
--   Mysql/Calm                  a database that works and has no other client
--   Usecase/Posting/Success     a posting on it, and its repetition
--   Usecase/Auth/Signup         a signup as one of those clients
--   Usecase/Posting/Conflict, Handler/Mileage/Conflict
--                               the retry loop when other clients win the race for the version
--   Usecase/Posting/Clients/Machine, Refinement, Linearized
--                               a machine of balances and taken keys, and Execute as a request to it
--   Usecase/Balance/Fresh       reading the balance after a posting
--   Usecase/Auth/Nonce          GenerateNonce of internal/usecase/auth.go
--   Process, with Threads, Turns, Serving
--                               cmd/api/main.go, internal/infra/mysql/db.go and NewCache;
--                               main and the goroutine for the shutdown under any schedule
--   Router/Delivery, Router/Posting
--                               a request with a token through the middleware, and a grant over HTTP
--   Usecase/Achievement/Log     what is relied on of the table of events
--   Tests                       a platform in memory that meets the contract, runs, examples
--
-- State. The world of a Platform is everything outside the process, and a call is a function from a
-- world to an Outcome: a value, an error or a panic, with the world after it. The contract shows a
-- world as committed tables and open transactions. Other clients act at any call: Others relates the
-- tables before and after what they do. An int64 is an integer, and sums are wrapped modulo 2^64.
--
-- Bounds. The retry loop counts its three attempts down, and GenerateNonce its 32 bytes. Itoa,
-- which only the metrics and the statements on the configuration use, runs on fuel for 20
-- digits, and 2^64 has 20.
--
-- Not modelled: timeouts and cancellation of a context.
-- Client of the cache, which nothing calls, is left out. What echo itself does is a parameter
-- too: finding a route, Recover, CORS and decoding a body. The registry of Prometheus and the
-- fields of a log line that need the clock or the connection are left out. Of the process, a
-- signal that comes before Notify is left out, and Start is taken to return; the constructors,
-- which store their arguments, are not definitions of their own. A database that works takes the
-- generated identifier as new and has the user for the foreign key: the primary key and the
-- foreign keys of the migrations stand in the predicate Fits of Calm.
--
-- Clients. Usecase/Posting/Clients has one step per commit, a posting or an account that is
-- opened, and Reach for any number of them, by any number of concurrent clients.
pub mod Base
pub mod Errors
pub mod GoText
pub mod Effect
pub mod Domain
pub mod Platform
pub mod Mysql
pub mod Tables
pub mod Cache
pub mod Usecase
pub mod Handler
pub mod Middleware
pub mod Router
pub mod Config
pub mod Process
pub mod Tests
