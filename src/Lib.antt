-- ===== src/Lib.antt =====
-- Verification of the recruitment backend (backend/app): offers and their delivery by mail, hiring
-- decisions, the status machine and schedule checks of interview rounds, the transcript parser, AI
-- tasks and their worker, screening decisions, score reports, login sessions, and the scrubbing of
-- audit entries.
--
-- The program is a set of services over one database. A service call opens a session, reads rows
-- under row locks, checks them, writes rows, and commits; an exception rolls the session back. Two
-- Celery workers take messages from queues and do the same in several transactions. Here a call is
-- a function from the committed database to an error, or to a result and the database it commits
-- (`Session` of Common/Results.antt, with do blocks); the database is the record `Db` of
-- Models/Database.antt, a list of rows by primary key for each table.
--
-- The parts:
--   Common: lists, Boolean tests, text, tables with `lookup` and `put`, sessions and results.
--   Models: the rows and status constants of backend/app/models (offer.py, candidate.py, resume.py,
--     interview.py).
--   Crypto: backend/app/services/crypto.py and the helpers over it in offers.py.
--   Offers: backend/app/services/offers.py, backend/app/repositories/offers.py and
--     backend/app/workers/mail_tasks.py. Offers/Base has the exceptions, idempotency and the audit
--     entry; Offers/Store the queries and the constraints that a flush checks; Offers/Drafts
--     `create_offer`; Offers/Edits `update_offer_draft`, `mark_offer_ready` and `void_offer`;
--     Offers/Sending `confirm_offer_send`, `retry_offer_send` and
--     `mark_stale_failed_offer_send_attempt`; Offers/Worker `_handle_mail_attempt`, cut at its commits
--     into `pick_up`, and `open_claim` and `finish`, which are one transaction around the provider's
--     call. In each, Effects says what checks and writes do, and Steps that the code makes moves of
--     Offers/Moves, the abstract description of how offers and attempts may change; a worker that
--     comes back late is among them. Offers/Settlement, Offers/Active and Offers/Finality are
--     invariants of the moves; Offers/System puts calls and any number of workers together in any
--     order, and its children draw the conclusions. Offers/Versions is the same for the table of
--     versions.
--     Offers/Promises, Offers/Delivery and Offers/Reclaims are about one call or a few in a row.
--   HiringRules and Hiring: backend/app/services/hiring_decisions.py and its repository, the checks
--     and the writes. Hiring/Promises and Hiring/History are about one call and about any number of
--     them; Hiring/Gate joins them with Offers: what a decision means for creating an offer.
--   Screening: `create_screening_decision` of backend/app/services/resumes.py, cut into
--     `read_screening` and `write_screening` (Screening/Writes), since it takes no lock on the
--     application.
--   Scores: the dimensions of a score report, of backend/app/services/score_validation.py.
--   Interviews: backend/app/services/interview_state.py (Interviews/State) and
--     backend/app/services/interview_conflicts.py (Interviews/Schedule).
--   Transcripts: backend/app/services/transcript_parser.py. Transcripts/Decoding checks an upload and
--     decodes it; Transcripts/Lines, Labels and Parser are the regular expressions and the loop;
--     Segments, Printing, Stamps, Blank and Uploads draw the conclusions.
--   AiTasks: backend/app/services/ai_tasks.py (AiTasks.antt and AiTasks/Creation) and
--     backend/app/workers/ai_tasks.py. `_handle_process` is cut at its commits into `claim_task` and
--     `start_attempt` (AiTasks/Worker) and `settle` (AiTasks/Settle); AiTasks/Entries has the entries
--     of the two queues, which reroute or claim. Effects and Settle/Effects make each phase moves of
--     AiTasks/Moves, or, for a worker whose task was recovered meanwhile, its changes; Soundness is
--     an invariant of the moves and Numbering one of the changes. AiTasks/System puts calls and any
--     number of workers together in any order; its `TimelyRun` leaves out workers that come back to
--     a recovered task. AiTasks/Retries and AiTasks/Routing are about one task's deliveries.
--   Sessions: backend/app/services/sessions.py with its script for Redis, over a store with one
--     table for each prefix of keys.
--   Audit: `_scrub_value` of backend/app/services/audit.py, over JSON values.
--
-- How the models read the code:
--   Primary keys are numbers; a key that `uuid4` makes is an argument, and the constraints of the
--   database are checked against it. Instants are seconds in UTC, and a request reads the clock
--   once. Text is a list of code points.
--   A function that is long is cut into its checks, its writes and the choice between a replay and
--   a fresh run; each part names the code it comes from.
--   Third-party code is a parameter: the Fernet cipher, the two SHA-256 hashes over JSON, the answers
--   of the mail and AI providers, the database of time zones, the codecs, lower-casing and the digits
--   of Unicode. How other services store the result of an AI task is an argument, too. Where a
--   theorem relies on one, its hypothesis says so.
--   Transactions are whole, but for a screening decision, whose reads and writes are apart. An
--   interleaving is a sequence of transactions. Row locks only make it narrower, so what holds for
--   every sequence holds for the program; the order in which waiting transactions get their locks is
--   left open. The queue may deliver a message at any time and any number of times. A start
--   (`IsStart` of Offers/System/Runs.antt) is a database with no claim under way in which
--   offers and attempts agree; the empty one is the simplest.
--   The session factory sets `expire_on_commit=False`, and no `select` asks for
--   `populate_existing`: a row that a session has not loaded yet is read as committed, and one that
--   it holds keeps the attributes that the session knows, also under a row lock, while the update
--   goes to the committed row. A worker keeps one session, so `finish` and `settle` take the objects
--   that it holds from its claim on (`held`, and `task` and `attempt` of `Claim`) and test those; a
--   column that the worker sets to null, and holds as null already, is left out of its update
--   (`nulled`). An API call reads the rows that it tests once. AiTasks/System assumes that recovery, which waits
--   for five minutes, does not fall between a worker's claim and its attempt, unless the worker died
--   there.
--   Redis runs a script as one step; keys that expire are still there in the model, and new digests
--   and session ids are fresh.
--   Loops over rows, lines and JSON values are structural recursions. Only `deliver_retries`, the
--   chain of messages that a failing AI task sends itself, takes a number of runs: three are enough,
--   the greatest number of attempts of a retry cycle.
--
-- Not modelled: read-only listings, the request context of audit entries, times to live and failures
-- of Redis, the payloads of AI tasks, the HTTP layer, migrations, the frontend, and the remaining
-- services; of score reports, the totals, which are floats. Scores of an analysis are only copied,
-- and are opaque numbers here.
pub mod Common
pub mod Models
pub mod Crypto
pub mod Offers
pub mod HiringRules
pub mod Hiring
pub mod Interviews
pub mod Transcripts
pub mod AiTasks
pub mod Audit
pub mod Sessions
pub mod Scores
pub mod Screening
