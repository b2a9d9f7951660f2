-- ===== src/Lib.antt =====
-- Verification library of go-anansi, a schema-driven persistence layer for Go.
--
-- A query goes from the query language (core/query/dsl.go) through the partitioner
-- (core/query/partitioner.go), which splits it by the capabilities of the database: one part
-- becomes SQL, and the other runs in memory on the rows that come back (core/query/helper.go).
-- Both parts combine conditions by the logical operators of core/common. The handle registry of
-- core/bits packs where an entry lies, how long it is and whose it is into one 64-bit handle.
--
-- - Prelude: shared names; Prelude/Int (Go integers), Prelude/Word (64-bit words and the laws of
--   `&` and `|`), Prelude/Result (a value or an error).
-- - Handle: core/bits/handle.go. `handle`, `set_id`, `shift`, `offset`, `length` and `id` are
--   `Handle`, `SetID`, `Shift`, `Offset`, `Length` and `ID`.
-- - Registry: core/bits/registry.go. Registry/Pages: `persistentEntries` and
--   `persistentSlotToEntry`. Registry/Header: the header words, `readSlot`, `writeSlot`,
--   `allocSlot` and `freeSlot`. Registry/Ids: `idTable`; `find` and the loop of
--   `insertOrUpdateInPlace` have one step for each cell, after which they have gone round.
--   Registry/Snapshot: the snapshot of a `Registry`, with a module for `Get`, `Set`, `Delete`,
--   `Handle` and `UpdateHandle` (Methods) and one for `Write`, `Export` and `Import` (Transfer).
--   The functions of its configuration are parameters. `Clone`, whose two registries share an
--   array, `defragmentLocked` and the goroutine that calls it are not modelled.
-- - Logical: core/common/logical_operators.go. `evaluate` is `Evaluate`, `string` and
--   `logical_operator_from` are the two name tables.
-- - Version: core/common/version.go. Version/Text: what it uses of strings, strconv and fmt.
--   Version/Registry: `Parse` and `StringWithRegistry`. Version/Address: history addresses.
--   Version/History: `Versionable`.
-- - Transaction: core/persistence/transaction/transaction.go. The database interactor, its errors
--   and the world that it and the hooks change are parameters. Transaction/Calls: the methods as
--   steps that goroutines interleave. Transaction/Waiting: the operations in flight.
-- - Cache: core/cache. Cache/Items: the items of a shard in their traversal order. Cache/Shard and
--   Cache/Reaping: the methods of `cacheShard`. Cache/Config: `normalize`. Cache/Managed:
--   `managedCache`. Cache/Simple: `inMemoryCache`. Cache/History: any calls, on both caches. An
--   element of the list is known by its key, and time is a number that each call is given.
-- - Query: core/query/dsl.go, the data types and `IsEmpty`.
--   Query/Depends: `collectDependencies` and its helpers. Query/Match: `evaluateQueryFilter` and
--   `evaluateGroup`, over any evaluation of single conditions. Query/Join: `Join` and `JoinStreams`,
--   whose streams are lists. Query/Page: `Paginate` and `computePaginationInfo`. Query/Partition: `Partition` and
--   the methods that it calls.
--
-- Fuel: a search of the hash table has one step for each cell, after which it has gone round; the
-- loops that double its size have as many steps as the size asked for; `nextPowerOfTwo` has 65 steps,
-- by when its int has become 0 and the loop does not end; printing a number has one
-- step for each of its units, and a number has at most as many digits as its value and one. Every other
-- recursion is on the structure of its data. Not modelled: the text of
-- error messages, the JSON wrapping of names, the fields of a query that the engine sets after
-- partitioning, and the comparison of values, which the filter evaluation takes as an argument. What
-- `Partition` writes through pointers into the query of its caller is modelled where its results
-- share it.
pub mod Prelude
pub mod Handle
pub mod Logical
pub mod Query
pub mod Version
pub mod Transaction
pub mod Cache
pub mod Registry
