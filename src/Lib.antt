-- ===== src/Lib.antt =====
-- toToggle: a feature-toggle service. Two of its Go programs are modelled here: the client library
-- (totoggle_go), which an application uses to ask whether a toggle is on, and the core of the
-- server (server/internal/app), which stores the toggles, the keys, the sessions of those who log in and
-- the approval requests.
--
-- How they interact: the server gives an application's toggles, as JSON over HTTP, to whoever
-- presents one of its secret keys. The client library fetches them, keeps them in a cache, refreshes
-- the cache at intervals, and answers IsActive from the cache alone. A change of toggles, of
-- applications or of keys may need the approval of a second person, who logs in on the server.
--
-- The files and the code that they model:
--   Prelude, Prelude/*       Boolean tests and lists over the native numbers, and text as a list of
--                            code points with the operations of Go's package strings that are used.
--   Sdk/Path, Sdk/Path/*     totoggle_go/internal/toggle/path.go: paths and the paths before a dot.
--   Sdk/Rule                 totoggle_go/internal/toggle/rule.go: activation rules.
--   Sdk/Catalog, .../Lookup  totoggle_go/internal/toggle/toggle.go, application.go: the catalog of an
--                            application and its index by path.
--   Sdk/Strategy/*           totoggle_go/internal/strategy: one file per evaluator, and the registry.
--   Sdk/Errors               totoggle_go/errors.go, metrics.go: errors, and what listeners are told.
--   Sdk/Cache                totoggle_go/internal/cache/cache.go: the snapshot and its health.
--   Sdk/Fetch                totoggle_go/internal/serverapi/fetch.go: the reading of a reply.
--   Sdk/Client, Sdk/Client/* totoggle_go/client.go: Evaluate models evaluation (evaluate,
--                            evaluateRule, contextKey), Refresh models New, Start, Refresh, refreshOnce,
--                            Shutdown and IsHealthy, Backoff models backoffDelay, and Lifecycle models
--                            the interleavings of a refresh with Shutdown as a step relation. Cascade
--                            and Health hold lemmas on them.
--   Sdk/Samples, Sdk/Tests   sample data and runs.
--   Server/Db, Server/Db/*   gorm and SQL as a parameter: a table is a record of statements, whose
--                            documented behaviour is the record Lawful. Memory is a table that has it.
--                            What an insertion makes of a column with a default that is not zero is
--                            with_defaults of Server/Toggles.
--   Server/Keys, .../*       domain/entity/secret_key.go, usecase/secret_key_usecase.go and
--                            infrastructure/database/secret_key_repository.go.
--   Server/User              domain/entity/user.go, domain/policy/approval_access.go and the queries
--                            on team_users and on the teams of a user.
--   Server/Auth, .../*       usecase/auth_usecase.go, domain/auth, domain/entity/session.go, the
--                            password of domain/entity/user.go, and
--                            infrastructure/database/session_repository.go. Passwords, Tokens, Change,
--                            Live and Login follow its calls.
--   Server/RateLimiter/*     middleware/rate_limiter.go, login_rate_limiter.go and
--                            killswitch_rate_limiter.go: the attempts of each key.
--   Server/Rules, .../*      domain/entity/activation_rule.go: the checks of a rule. Evaluable,
--                            ContextKeys and Windows set them beside the strategies of the client.
--   Server/Validation, .../* domain/entity/validation.go: paths, names and texts.
--   Server/Toggles           domain/entity/toggle.go, CreateToggle of usecase/toggle_usecase.go and
--                            its queries in infrastructure/database/toggle_repository.go. Creation,
--                            Ancestors, Levels and Placing follow the toggles that it makes.
--   Server/Toggles/Status    the reads of usecase/toggle_usecase.go; Walks is about their loops.
--   Server/Toggles/Changes   UpdateToggleWithRule and UpdateEnabledRecursively; StoredRules is about
--                            the rules that they store.
--   Server/Toggles/Archive   the deletion and the restoration of toggles, with runs of both. Below,
--                            Deletion and Depth follow what a deletion takes, and how deep it goes.
--   Server/Users, .../*      usecase/user_usecase.go, domain/entity/user.go and the deletion of
--                            infrastructure/database/user_repository.go. Revoking is about sessions.
--   Server/Teams, .../*      usecase/team_usecase.go, domain/entity/team.go and
--                            infrastructure/database/team_repository.go. Permissions and Access are
--                            about who may change an application, Deletion and Stored about the rows
--                            that the calls leave, Reads and Membership about what reads keep and
--                            the teams that they find.
--   Server/Audit             domain/entity/audit_log.go and the records of usecase/audit_usecase.go.
--   Server/Audit/Listing     its lists, infrastructure/database/audit_log_repository.go, and the
--                            cursors and pages of handler/audit_handler.go. Newest, Cursors, Pages and
--                            Stops follow the pages of a list.
--   Server/Approval          domain/entity/approval_request.go: the request and its states.
--   Server/Approval/Workflow usecase/approval_usecase.go (ApproveRequest, RejectRequest,
--                            WithdrawRequest, MarkExpiredRequests, GetApprovalStats) and
--                            infrastructure/database/approval_request_repository.go. Reading,
--                            Decisions, Outcomes and Endings follow these calls branch by branch, Runs
--                            follows sequences of them, Stats reads the statistics.
--   Server/Approval/Creation usecase/approval_usecase.go (CreateApprovalRequest, CreateSuggestion);
--                            Asking, Filed and Outcome follow it.
--   Server/Approval/Execution usecase/approval_usecase.go (ExecuteApprovedAction and its actions on
--                            toggles and keys); Executed and Enabling follow it.
--   Server/Approval/Settings domain/entity/approval_settings.go.
--   Server/Approval/Gate     middleware/approval.go (ApprovalAware, getActionType) and
--                            infrastructure/database/approval_settings_repository.go; Settled has
--                            which requests pass under the settings that are stored.
--   Server/Approval/Filing   determineTeamID of middleware/approval.go, GetUserTeamForApplication of
--                            usecase/approval_usecase.go, and their queries in
--                            infrastructure/database/team_repository.go.
--   Server/.../Tests, Sample runs, and a small database in memory.
--   (Paths of the server are under server/internal/app.)
--
-- Conventions. A Go string is a list of code points; one that is not valid UTF-8 is not modelled.
-- Times are natural numbers, and each reading of the clock is an argument. Native numbers stand for
-- Go's ints where no operation can overflow; the hash of the percentage rule keeps its wrap-around.
-- A stateful operation passes its state on, and a failure is a value. Recursion is structural on
-- lists and texts, or on a number that the code counts. The loops of the server over stored toggles
-- follow ids, and take a number of rounds as fuel. Upwards, the level of a toggle plus one is enough
-- on a table in which each toggle stands one level below the one that it points to, which CreateToggle
-- keeps. Downwards (Archive, UpdateEnabledRecursively), they answer `none` when the rounds do not do;
-- for a deletion, a bound on the levels is enough. The pages of the audit log are followed for as many
-- rounds as there are entries and one.
--
-- What is a parameter: the HTTP exchange, JSON decoding, package net's parsing, floats, the classes of
-- package unicode, the resolver of the request's context, SHA-256, bcrypt, crypto/rand, ULIDs, the
-- clock, the file of the first password, base64 and the format of times in the cursors of the audit
-- log, and the database, with its ordered queries and its joins.
--
-- What is not modelled: the refresh loop's timer and goroutines beyond the steps of Lifecycle, the
-- listeners' own code, and of the server the HTTP handlers, the router, the data that the
-- middleware files with a request for an approval, the applications, the choice of the approvers of a
-- team, the lists of toggles for the browser, and in the execution of approval requests the choice of
-- the action, its audit and the actions on applications. The web frontend and the Java and Node client
-- libraries are not modelled either.
pub mod Prelude
pub mod Sdk
pub mod Server
