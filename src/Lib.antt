-- ===== src/Lib.antt =====
-- A verification library for the SIGMOD 2012 programming contest kit: the interface of a multidimensional
-- in-memory index, its example implementation on Berkeley DB, and the driver of the benchmark.
--
-- The program has three parts. include/contest_interface.h declares the functions of an index: transactions,
-- opening, records, and iterators over a range of keys. example/ implements them on Berkeley DB, by
-- one b-tree for each index whose keys are the attributes written one after another. benchmark/ generates
-- keys and drives an implementation.
--
--  * Interface.antt: the types of include/contest_interface.h.
--  * Keys.antt: KeyCmp of example/util.cc; Keys/Order.antt and Keys/Box.antt, its two uses.
--  * Schema.antt: IndexSchema of example/index.cc, that is GetBDBKey, GetKey, Compatible, the set of
--    handles and the set of writers. Schema/RoundTrip.antt, Schema/Wildcards.antt and
--    Schema/Writers.antt are about the bytes, the range of a query and the writers.
--  * Bdb.antt: Berkeley DB, a parameter. Its operations are the fields of a record, and what the
--    documentation says of reading by a cursor is the record ReadsInOrder. What it says of
--    changes are the records Puts, Searches, Erases and Replaces of Api/Insertion.antt, Api/Changing.antt,
--    Api/Erasure.antt and Api/Replacement.antt.
--  * Objects.antt: the objects of example/ and the state of the process. A pointer is an address in that
--    state, so a dangling pointer and the aliasing of handles are part of the model.
--  * Iterators.antt, Transactions.antt, Closing.antt and Indexes.antt: the methods of Iterator,
--    Transaction, Index, IndexSchema and IndexManager from example/iterator.cc,
--    example/transaction.cc and example/index.cc. Each is a function on the state that returns, throws
--    an exception of Berkeley DB, runs into undefined behaviour, or is out of fuel.
--  * Api.antt: the functions of example/BDBImpl.cc, with their tests and their translation of exceptions.
--    Insertion, Erasure and Replacement in its folder see an index as a multiset of records or entries.
--  * Singletons.antt: the singletons ConnectionManager and IndexManager, and the calls that open the
--    environment of Berkeley DB.
--  * Locks.antt: the mutexes of example/mutex.h, with any number of threads and any interleaving of their
--    accesses. Locks/Atomic.antt and Locks/Progress.antt are why a method that runs under its mutex is
--    one step elsewhere.
--  * Consistency.antt and its folder: what holds of names, schemas and handles after any calls of the
--    interface (Consistency/History.antt). Safety.antt and its folder: which calls keep clear of
--    undefined behaviour.
--  * Records.antt and its folder: the records of unittests/util.cc, made and compared, and the agreement
--    of their comparison with the order of the b-tree.
--  * Benchmark.antt and its folder: CachedKeyStore (KeyStore), the random number generators (Rngs), the
--    generators (Generators), GetSize (Sizes), the settings (Properties), the statistics (Statistics),
--    the class Benchmark (Driver) and the serialised keys of the workload (KeyData), from
--    benchmark/core and benchmark/workloads.
--  * Containers.antt, Base.antt: std::string, std::set, std::map; numbers, lists, Booleans.
--  * Tests.antt: runs on concrete data.
--
-- Integers are unbounded where the source only counts objects, and have their width written out where
-- bytes are compared, where random numbers are drawn and where sizes are computed. Methods that hold a
-- mutex are one step each. A list of calls is a sequence: the calls themselves are not cut into steps
-- that other threads could come between, except in Locks.antt. The search of an
-- iterator and the loop over duplicates take fuel. The search needs one round more than there are records
-- before the cursor, and the loop of Index::Close one more than there are iterators.
--
-- An object that is deleted is gone from the state, also where its destructor throws. That free() takes
-- memory of new, which C++ does not promise, is a field of the state, which Index::Insert and the
-- destructor of an iterator read.
--
-- Not modelled: the release of memory otherwise, and its failure; threads, timers and
-- loggers; the floating point generators; the importer of workload files, the command line, the workload
-- but for its keys, and the unit tests but for their records.
pub mod Base
pub mod Containers
pub mod Interface
pub mod Keys
pub mod Schema
pub mod Bdb
pub mod Objects
pub mod Iterators
pub mod Transactions
pub mod Closing
pub mod Indexes
pub mod Api
pub mod Singletons
pub mod Locks
pub mod Consistency
pub mod Records
pub mod Benchmark
pub mod Tests
pub mod Safety
