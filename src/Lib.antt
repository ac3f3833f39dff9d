-- ===== src/Lib.antt =====
-- sub-manager is a web server that keeps proxy subscriptions in an SQLite database and serves them.
-- Its parts (all paths are from the repository's root):
--   * internal/app/store.go, `Store`: settings, sessions, subscriptions, uploaded files, statistics
--     and access logs. Every other part keeps its state here, but for the contents of files.
--   * internal/app/filestore.go, `FileStorage`: a directory of blobs, each at a place that its SHA-256
--     gives, and of uploads that are not yet taken over; the names of files.
--   * internal/app/app.go, `loginLimiter`: the count of failed logins by address; `Handler`: the routes
--     with their guards; `cleanupLoop`.
--   * internal/app/clientip.go, `clientIPResolver`: which address a request comes from.
--   * internal/app/helpers.go: the validation and normal form of what the handlers store.
--   * internal/app/auth.go: the guards of the administration pages.
--   * internal/app/handlers.go, handlers_files.go: the requests, which call all of the above. Here:
--     every request that changes something, and the public route of the subscriptions.
--   * internal/app/config.go: the configuration.
--   * internal/app/time.go, and `dbTime`, `parseDBTime` of store.go: times as stored.
--
-- Which file models what:
--   * Base: texts as lists of code points with Go's `strings` functions, association lists, and
--     the shapes of SQL statements over a table as a list of rows with their lemmas.
--   * Clock: instants are nanoseconds, and a `time.Duration` is the bit pattern of its int64;
--     `db_time` keeps the second as a number and the rest of the RFC3339Nano text as text.
--     `db_time_lt` is how SQLite compares two such texts. Clock/Parse reads them back.
--   * Limiter: `loginLimiter`; `now` is an argument where the code calls `time.Now()`. The methods
--     hold the mutex from start to end, so each is one step.
--   * ClientIp: ClientIp/Netip holds what the code uses of package net/netip. Reading and printing
--     addresses is a parameter (`NetipText`) on which no assumption is made. ClientIp/Parse and
--     ClientIp/Resolver are the functions and methods of clientip.go.
--   * Store: Store/Tables has a record for each table that `migrate` creates and `Db` for the
--     database; Store/Statements the statements, with the constraints that SQLite checks (UNIQUE,
--     foreign keys, ON DELETE); Store/Subscriptions, Store/Access, Store/Files and Store/Sessions a
--     function for each method, which returns a result and the new database. A transaction restores
--     the database where its body fails. Store/Commands lists the calls that write, so a history is
--     a list of calls. SQLite serializes the writers, so any interleaving of requests is such a
--     list. The hash of session tokens is a parameter on which no assumption is made.
--   * Store/Valid: what holds between calls, and the rule that a property which each statement keeps
--     is kept by each history; Store/Revision is a second use of that rule. Store/Catalog has the promise
--     about text subscriptions as a machine on ids and entries, and the methods as its refinement.
--   * Helpers: the pure functions of helpers.go.
--   * Admin: the guards, and the handlers `login`, `logout` and `changePassword`, as functions of the
--     form, the instants read, the random tokens and the state, to a reply and the new state. bcrypt
--     is a parameter on which no assumption is made.
--   * Settings: `updateSettings`, on the database and the resolver.
--   * Storage: Storage/Paths is package path/filepath, with a cleaned path as its names, and the method
--     `path`; Storage/Names `sanitizeFilename`; Storage/Directory `Stage`, `Commit`, `Discard`, `Open` and
--     `Remove` on a disk of temporary files and blobs. What the system may refuse is an argument. The
--     digests and the tables of types are parameters; of them it is assumed only that a SHA-256 is 64
--     hex digits.
--   * Uploads: `saveUploadedFile`, on the database and the disk.
--   * Web: the functions that read a request or build a link (`parseID`, `subscriptionFromForm`,
--     `subscriptionListURL`, `messageFromQuery`, `uniqueClients`, `isSecureRequest`, `baseURL`).
--   * Panel: the handlers that change subscriptions, files and logs. Panel/Requests has a request to them
--     as data. Panel/Kept shows that the handlers give the store good values only, Panel/Safe what every
--     request keeps.
--   * Public: `publicSubscription` and `publicFileSubscription`. Whether a blob can be opened is a
--     parameter, and the base64 encoding stays symbolic. Public/Delivered puts the files directory in its
--     place.
--   * Config: `LoadConfig`, with the environment as a function, and the defaults of `New`.
--   * Site: all of it together. A visit is a request to a route that may change something, with its
--     guards, or a turn of the cleanup; a history of the program is a list of visits. Site/Kept and
--     Site/Strangers are about all histories.
--
-- All loops are structural recursion on a list or a text, so there is no fuel.
--
-- Not modelled: failures of the SQLite engine and of the context; the overflow of int64 counters and
-- ids (the OFFSET of a page and the durations are on 64 bits as in the code); texts that are not valid
-- UTF-8; letters beyond ASCII in `strings.ToLower` and `strings.EqualFold`; `OpenStore`, `migrate` and
-- its repair of older databases; more than one failure of the disk in one call of the file storage,
-- and a temporary file that cannot be removed after an error of `Stage`; `NewFileStorage`; the pages
-- that only show something and their contents, the messages of errors, downloads by the administrator,
-- the attributes of cookies; the rest of `New`, the choice of a route by method and path, the limit on
-- the body of a request, the logging and the process. A handler is one step here, with all that it
-- reads and writes; Store/Counting and Store/Login show what calls between the reads and the writes of
-- another one do.
pub mod Admin
pub mod Base
pub mod ClientIp
pub mod Clock
pub mod Config
pub mod Helpers
pub mod Limiter
pub mod Panel
pub mod Public
pub mod Settings
pub mod Site
pub mod Storage
pub mod Store
pub mod Uploads
pub mod Web
