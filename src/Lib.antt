-- ===== src/Lib.antt =====
-- Butterbot: the economy core of a Discord bot, its ledger, and the rules on who may move coins.
--
-- The program is layered. A command of the bot calls a service (src/butterbot/application); the service
-- hands a body to the transaction runner, which retries it; the body runs inside a unit of work, which
-- opens a transaction and offers repositories (src/butterbot/infrastructure/persistence). Here a body
-- is a state action `Tx A = Session → Result (A × Session)`: a session is what one unit of work sees,
-- an exception is an error value, and an action that raises leaves no session behind.
--
-- Files, and the code that each models:
--   Base, Result, Tx          shared types and lemmas, exceptions as values, the action monad with its
--                             rules (Tx/Rules, Tx/Steps)
--   Exact                     src/butterbot/application/exact_integer.py
--   Names                     src/butterbot/application/identity.py, economy/audit_identity.py and the
--                             patterns of operations/idempotency.py
--   Models, Session           src/butterbot/infrastructure/persistence/models.py; the tables, the
--                             tracker and the callbacks of a unit of work, and the functions of Python's
--                             library that the program calls (the record Environment)
--   Ledger                    the writes that grants.py, daily.py and corrections.py of
--                             src/butterbot/infrastructure/persistence share; Ledger/Measure says what
--                             double entry is, Ledger/Effects and Ledger/Moves what each write does to it
--   Players, Transport        src/butterbot/infrastructure/persistence/repositories.py
--   Requests, Idempotency     src/butterbot/application/operations/idempotency.py, its maintenance in
--                             Transport/Cleanup
--   Daily, Grants, Corrections the services' rules in src/butterbot/application/economy, each with its
--                             repository in the child Repository; Daily/Receipts has the
--                             CHECK on the receipts of claims
--   Restrictions, Proposals   src/butterbot/infrastructure/persistence/safety.py
--   Policy, Safety            src/butterbot/application/safety/service.py: `_mutate` and the audit in
--                             Safety, the operations in Safety/Access, Safety/Proposing, Safety/Money
--   Join, History             src/butterbot/application/players/join.py, economy/balance.py and
--                             economy/history.py, persistence/history.py
--   Runner                    src/butterbot/application/transactions.py
--   Units                     the begin, commit and roll back of
--                             src/butterbot/infrastructure/persistence/unit_of_work.py, and sequences of
--                             the operations above
--   Lifecycle                 the phases, the admission of writers, the resources and the shutdown of
--                             unit_of_work.py, as steps in any order (Lifecycle/Steps)
--   Checked, Readiness, Storage, Sentinel
--                             readiness.py, storage.py and the triggers of schema_contract.py in
--                             src/butterbot/infrastructure/persistence
--   Configuration             src/butterbot/discord_app/config.py and safety_config.py
--   ProcessLock, Runtime      persistence/process_lock.py and database.py: the start with its checks, and
--                             the calls of close
--   Bootstrap                 src/butterbot/bootstrap.py, over all of these
--   Eligibility, Monitor      src/butterbot/application/operations/mutation_eligibility.py and
--                             persistence/storage_monitor.py
--   Simulation                src/butterbot/simulation/economy.py: loading, validation, rates,
--                             projections and worksheets over fractions
--   Examples                  runs of the model and the theorems at concrete inputs
-- Reads holds the frame rules of the reads; the children Balanced hold those of each component's writes.
--
-- Choices. An integer is unbounded as in Python, and the 64-bit checks stand where the code has them.
-- UUIDs and Discord ids are natural numbers, and `ids` is the sequence of the UUIDs that are handed out.
-- Clock readings, eligibility verdicts and the runtime guard are arguments, sampled where the code
-- samples them. Times of the runner are whole milliseconds. A table is a list whose order nothing reads:
-- queries with an order sort. The runner is given fuel for `max_retries + 1` rounds, which is enough: a
-- failure after that many attempts is the last.
--
-- Asynchronous code is cut at its awaits: a function of Lifecycle is what runs between two of
-- them, and how a wait ends, a commit or the closing of a connection, is an argument or a step.
-- What the operating system and SQLite answer to readiness and storage checks, and to a start and
-- a close of the runtime, are records. A fraction is kept as it comes, not in lowest terms, and
-- compared by multiplying across.
--
-- Not modelled: the CHECKs of the tables other than keys, unique columns, the check on balances
-- and that on daily receipts (they only refuse more), and the triggers that seal history; the
-- text form of stored payloads; telemetry that is sent at once; the reading of /proc and of
-- SQLite's answers; what an engine does inside; the table of release hashes; the text of a
-- worksheet's cells (Decimal, square root, csv quoting) and command lines; the Discord library's
-- glue.
pub mod Base
pub mod Result
pub mod Exact
pub mod Json
pub mod Models
pub mod Session
pub mod Tx
pub mod Ledger
pub mod Names
pub mod Players
pub mod Requests
pub mod Transport
pub mod Idempotency
pub mod Restrictions
pub mod Daily
pub mod Reads
pub mod Policy
pub mod Proposals
pub mod Grants
pub mod Corrections
pub mod Safety
pub mod Join
pub mod History
pub mod Lifecycle
pub mod Eligibility
pub mod Monitor
pub mod Checked
pub mod Configuration
pub mod ProcessLock
pub mod Runtime
pub mod Bootstrap
pub mod Readiness
pub mod Storage
pub mod Sentinel
pub mod Runner
pub mod Simulation
pub mod Units
pub mod Examples
