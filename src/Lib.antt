-- ===== src/Lib.antt =====
-- A verification library of OSAIP: the path of a model call, from the guardrails that see its
-- text to the ledger that records it, the labels, permissions and audit log around it, and the
-- builds, from the graph of the recipes to the job queue that runs them.
--
-- Guardrails (packages/guardrails/osaip_guardrails) decide on texts. `Bsn` and `Iban` are the
-- checks of detectors.py, `Detect` its `find_*` functions and `detect_all`, `Redact` redact.py,
-- `Sovereignty` sovereignty.py, and `Policy` policy.py, over the JSON values of `Json`. `Samples`
-- holds texts for the tests.
--
-- Mesh (apps/mesh/osaip_mesh) makes the call. `Models` has the rows that it reads and writes,
-- from apps/api/osaip_api/models.py, and the session, a committed database beside the one of the
-- running transaction. `Cost`, `Quotas`, `Cache`, `Ledger` and `Stages` are cost.py, quotas.py,
-- cache.py, ledger.py and guardrails.py; `Request` has the records of providers/base.py and
-- pipeline.py; `Pipeline` has the helpers of pipeline.py and `Pipeline/Run` its `run_pipeline`,
-- `_settle_call`, `_record_failure` and `_invoke`. Each function takes the session and returns
-- it, so that an error comes with what was written before it. A `reserve` runs as it does when
-- nothing is committed between its reads. The advisory lock of a scope keeps other reservations
-- out of it, but no settlement; `Quotas/Reads` is about the two reads of a usage with settlements
-- between them.
--
-- Engine (packages/engine/osaip_engine) derives the label that a build declares: `LlmRecipes` is
-- `classification_floor` of llm_recipes.py.
--
-- Api (apps/api/osaip_api): `Audit` is the hash chain of audit.py, `Propagation` propagation.py,
-- and `Permissions` permissions.py. The reads of `verify_chain` in batches are one pass over the
-- rows in the order of `seq`. `Recipes` is recipes_service.py: the graph, the check for a cycle
-- and the freshness of a dataset. `Builds` is build_service.py: `Closure` is about the search
-- upstream, `Rounds`, `Behind` and `Order` about the topological order, `Select` and `Steps`
-- about the choice of the steps. Both searches are the walk of `Base/Worklist`.
--
-- Worker (apps/worker/osaip_worker): `Queue` has the jobs and the transactions on them of
-- executor.py, with `cancel_job` of apps/api/osaip_api/routers/builds.py, and `Queue/Commit`
-- those on a step and `_commit_version`. `Queue/Transactions` is the step relation: the
-- transactions of any number of workers, of the sweeper and of the API in any order, each of them
-- a step, since each commits on its own under the locks of its rows. `Queue/Lives` is the state
-- machine of one job. `Queue/Execute` is `execute_job` with `_run_step`, among the transactions
-- of the others (`Worker`), and `Queue/Runs` has the lemmas that tie it to the step relation;
-- `Queue/Succeeded` is about the runs that succeed. `LlmStep` is `run_llm_rows` of llm_step.py
-- with the checkpoint that a later run goes on from; `Loop` is about its batches, `Resume` about
-- what a run yields and `Sent` about what it sends.
--
-- What stands for what. A text is the list of its character codes, and the character tests are
-- those of ASCII. An identifier (a UUID) is a number whose order is that of its text, and a fresh
-- one is the next number. A time is a count of microseconds, in the worker of seconds;
-- `ts > now - TTL` is `now < ts + TTL`. Rows come in the order of the table. The cursor -1 of
-- `detect_all` is 0, since no span starts before 0. The reason of a refusal is shortened to its
-- rule, and `Detection.score` is left out. A temperature is whether it is zero and its text with
-- four digits. The arithmetic of `compute_cost` is exact, as that of `Decimal` is up to 28
-- digits. One clock reading stands for the readings of the settle step, and the JSON payloads of
-- a span are left out, as are those of a notification but for the status of the budget. The names
-- of missing targets come in the order of the request. A JSON column of a version is the text
-- that is stored. The audit row of a refusal is what the mesh passes to `write_audit`.
--
-- Parameters, since their code is not in the repository: the regular-expression engine
-- (`Patterns`, the spans of the four patterns), the encoder of tiktoken, `datetime.replace`
-- (`Calendar`), the SHA-256 of the canonical JSON (`hash`), in the audit `json.dumps`, SHA-256
-- and the texts of a UUID and a time (`Formats`), the provider and its construction. The model
-- pass (`analyze`, presidio_nl.py), the validator of answers (`validate`, schema.py: the
-- problems, or none where it raises), for a step the answers of `call_mesh` (`call`) and
-- `_coerce` (`coerce`), and the inputs and the engine of a build (`plan` and `build`) are
-- parameters as well.
--
-- Fuel. The loops are recursions on lists but for these. The walk of a graph takes as fuel the
-- number of the starts and of the edges of the nodes not seen, and `topo_loop` the number of the
-- recipes, `run_batches` that of the pending rows; each ends within its fuel, which is proved.
--
-- Not modelled: schema.py, judge.py, untrusted.py and presidio_nl.py of the guardrails; the HTTP
-- service, the adapters and ssrf.py of the mesh; the API but for these files and the rows of the
-- mesh; of the worker the build of a step by the engine, the sandbox and main.py; the rest of the
-- engine, and the web front end. They are network and process glue, or stand behind the
-- parameters above.
pub mod Api
pub mod Base
pub mod Engine
pub mod Guardrails
pub mod Mesh
pub mod Worker
