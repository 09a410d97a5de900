-- ===== src/Lib.antt =====
-- finance-engine: a model of the backend in internal/ and pkg/, and the theorems that its parts rely on.
--
-- The program is a personal-finance server: REST and gRPC handlers call services, services call
-- repositories, and repositories run SQL on PostgreSQL. The model follows the same layers.
--
--  * Prelude has tests on numbers and texts, lists over native numbers, texts with dots and decimal
--    numbers, and 64-bit integers. Table is the part of SQL that the queries use: a table is a list of
--    rows in the order of a query's result. Schema has the rows, Store the database with outages, and Maps
--    the maps of Go as lists of keys and values.
--  * Users is internal/repository/user.go, Plan is internal/plan/plan.go, LiqPay is
--    pkg/liqpay/liqpay.go, Billing is internal/service/billing/billing.go with
--    internal/repository/payment.go, and Admin is internal/service/admin/admin.go.
--  * Subscriptions takes the calls of Billing and of Admin as the steps of one history, the way the
--    handlers interleave them between requests.
--  * Categories is internal/service/category/category.go, Transactions is
--    internal/service/transaction/transaction.go, each with its file of internal/repository, and Retention
--    is internal/retention/retention.go. Filing takes their calls as the steps of one history.
--  * Imports is internal/monobankimport/import.go with the processing of internal/webhook/monobank.go, and
--    Mcc is pkg/mcc/mcc.go and pkg/monobank/currency.go. Imports/Once puts deliveries among the calls of
--    Filing.
--  * Accounts is internal/service/auth/auth.go with the queries of internal/repository/user.go that
--    it uses.
--  * Connections is internal/service/monobank/monobank.go with internal/repository/monobank.go.
--  * Sessions is internal/service/session/session.go with internal/repository/session.go.
--  * Listings is the queries of the repositories that list rows for display.
--  * Tokens is pkg/jwt/jwt.go and pkg/adminauth/adminauth.go, Formats the printing of ids and times, and Json
--    is internal/rest/models.go.
--  * Rest is internal/rest: its middleware, its handlers, and the mux of server.go, which puts each handler
--    behind its check. Owned says what one user sees of the tables, and follows the calls of the services
--    from query to query, so that Rest/Isolation can compare two users.
--  * Reports is internal/service/reports/reports.go, the import and the export of files.
--  * Rates is internal/repository/rate.go, internal/ratesync/ratesync.go and internal/service/rate/rate.go
--    over Redis.
--  * Advisor is internal/service/advisor: the score, the subscriptions, the runway, the pace, the summary, and
--    the questions to the language model in advisor.go and insights.go; Rest/Felix is the handlers of
--    internal/rest/advisor.go and internal/rest/rate.go, and Json/Advice what they print. Admin/Stats and
--    Admin/Trend are the statistics of the operator.
--  * Grpc is internal/grpc: its authorization and its controllers, which Grpc/Calls puts beside those of Rest.
--  * Webhooks is the two handlers of internal/webhook.
--
-- A service call is a function from the world to a result and the world afterwards. The world is the
-- tables, the outages to come (a test on the number of the query, so that a theorem without a
-- hypothesis on it covers every failure), the queries made so far, and the collation of the database. The program uses no transactions:
-- what a call wrote before it failed stays. One call runs at a time, except in Sessions/Race, where two
-- calls of Refresh have read the same row.
--
-- What is not under the repository is an argument: the hash, base64 and JSON behind LiqPay's signature,
-- what PostgreSQL makes of a decimal text, tokens and password hashes, random secrets, the answers of LiqPay, Monobank,
-- Apple and Google, each reading of the clock and each id
-- that the database generates, and the order in which it takes the users for a page of the operator's list. Times
-- are whole microseconds, which is what PostgreSQL keeps. Every
-- function is structurally recursive; the printing of a number alone takes a bound on its digits, which is the
-- number itself.
--
-- A handler of HTTP is a function from the world to a reply and the world afterwards. The routing by Go's
-- ServeMux and the decoding of JSON are outside: a route is a constructor, with what the decoder answered
-- for its body.
--
-- A float64 is its 64 bits; its arithmetic, and Go's calendar, are parameters, and so is the order in which Go
-- visits a map. A theorem on a map's entries asks that ranging visits each of them.
--
-- Not modelled: logging, the ticker of ratesync, the gRPC method of the rates, the recovery of the gRPC server
-- from panics, the verifiers of Apple's and Google's tokens and the HTTP clients of outside services,
-- configuration, the start of the program, and generated code.

pub mod Prelude
pub mod Table
pub mod Schema
pub mod Store
pub mod Plan
pub mod Users
pub mod LiqPay
pub mod Billing
pub mod Admin
pub mod Subscriptions
pub mod Sessions
pub mod Categories
pub mod Transactions
pub mod Retention
pub mod Filing
pub mod Mcc
pub mod Imports
pub mod Accounts
pub mod Connections
pub mod Formats
pub mod Tokens
pub mod Json
pub mod Listings
pub mod Owned
pub mod Rest
pub mod Webhooks
pub mod Reports
pub mod Rates
pub mod Grpc
pub mod Maps
pub mod Advisor
