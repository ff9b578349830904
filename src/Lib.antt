-- ===== src/Lib.antt =====
-- Goptivum is a server for school timetables. It keeps plans, sends them to solver nodes, keeps the
-- timetables that come back, and writes project files. Modelled here are the parts that decide:
-- which bytes are a project file, which versions and results of a plan are kept and what a client
-- learns of it, which solve runs on which node with how much, what the row of a solve says when it
-- ends, who may try to sign in, and which records the log page shows.
--
-- The parts and their files:
--   Prelude    the library's names, Boolean tests on numbers, lists, and a result type (an error of
--              Go is `err`).
--   Integers   the integers that objectives are compared as.
--   Text       what the program uses of Go's strings and unicode/utf8, over byte strings, and in Lines,
--              Valid and Blanks how splitting, validity and trimming act on texts put together.
--   Gpf        document/gpf: a project file is a preheader, a header of text fields, framed chunks, a
--              footer and a locator. Format holds the constants and the little-endian fields of
--              gpf.go; Preheader is readPreheader and writePreheader; Chunks is readPayload and
--              writeChunk; Footer is readFooterRegion and writeLocator; Header is header.go; Crypto
--              is crypto.go over a parameter that stands for filippo.io/age; Container is Encode and
--              Decode of file.go over a parameter for the codec of documents. The laws of age that
--              Crypto.RoundTrip needs are the record AgeLaws: a file opens for an identity of one of
--              its recipients, and a password opens what it sealed up to the work factor allowed.
--   Logger     backend/common/logger/ring.go: Ring.Write, Ring.Lines and redact.
--   Lockout    backend/core/lockout/lockout.go: the Guard with Blocked, Failed, Succeeded, SetLimits
--              and makeRoom.
--   Solve      solveclient: Capacity is status.go and the arithmetic of solve.go and errors.go;
--              Baseline is baseline.go; Stream is absorb, Worse and keep of solve.go.
--   Arrango    backend/arrango: Limits is limits.go; Admission is admission.go and capacity.go; Jobs
--              is jobs.go; Dispatch is dispatch.go, which asks Admission for a node, opens a job in
--              Jobs, folds the frames by Solve.Stream and closes the job. Runner is runner.go, the
--              solves in flight, where Start, a frame, the end of a solve, a cancel and Close are the
--              steps of a history.
--   Formats    backend/formats/optivum/pla: Pla is pla.go and codec.go over a parameter for
--              compress/zlib, whose laws are the record ZlibLaws.
--   Plans      backend/core/plans: Store holds the tables that name objects. Changes is
--              changes.go, the clock, the stamps and the listing; Garbage is garbage.go; Backups
--              is backups.go; Versions is AddVersion of versions.go; Checkpoints is
--              checkpoints.go; Results is what stores, changes, caps and purges results in
--              results.go; Exports is exports.go; Trash is the life of a plan's row in plans.go,
--              trash.go and fork.go. Versions, Checkpoints and Results call the trims of the cap;
--              whatever removes a row puts the object it named into the garbage, from which the
--              sweep of Garbage deletes what no row names; and every transaction ends with a
--              stamp in the log of Changes. What Plans calls an object that is accounted for is
--              one that a row names or the garbage holds.
--   Tests      the theorems at concrete inputs.
--
-- How the code corresponds: a struct is a record with the source's field names, a table of SQL a list
-- of rows and a statement a function on it, a map an association list, an error a constructor of a
-- sum. A pointer that may be nil is an Option. What a node answers, what the store of results says,
-- and every reading of the clock is an argument. The guard of sign-ins and the start of a solve hold
-- a mutex in the code, so each is one step here.
--
-- Numbers: a byte is a number below 256, and IsBytes says so of a byte string. The fields of a file
-- are read by their bytes and written with the remainder by 2 ^ 16 and 2 ^ 32 written out. A count,
-- a number of seconds and a size in memory is a number of ℕ; fractions of a second are not modelled,
-- except in the budgets, which count quarters of a second. A difference is guarded as in the code.
-- An objective is an int64 in the code and an integer here, where it is only compared; the count of
-- timetables in a preview wraps at 2 ^ 32.
--
-- A transaction of Plans is one step, and the reads before one are of a database of their own where
-- the code handles what changes in between. A constraint of the tables that the code relies on, such
-- as a primary key, is a condition of the theorem that needs it.
--
-- Fuel: the walk over the chunks gets the length of the region and one more; each frame takes five
-- bytes or more. The decimal digits of n get n + 1. Every other loop is structural.
--
-- Not modelled: the HTTP interface, the listings and names of plans and results, the SQL of
-- profiles, identity, the formats of Optivum but for the container of its plans, what the runner
-- publishes and waits for, and generated code. Errors of the database are left out where a
-- statement can only fail by them, and so is the profile that an order may carry. The patterns that
-- hide secrets in a log line and the Unicode tables of ToLower are parameters.
pub mod Prelude
pub mod Integers
pub mod Text
pub mod Gpf
pub mod Formats
pub mod Logger
pub mod Lockout
pub mod Solve
pub mod Arrango
pub mod Plans
pub mod Tests
