-- ===== src/Lib.antt =====
-- ND3X: the workflow engine of an assistant platform, modelled and verified.
--
-- A workflow is a graph of operations. A run of it is a row of the database, with a row for each
-- operation that was started. Workers take queued runs and execute their graphs; users and parent
-- runs ask them to stop; a restart fails what a dead process left behind. All of them write the
-- same rows, and what protects one from another are the guards of the repository's methods.
--
-- Runs models src/repository/workflow_run_repository.py over the rows of src/models/workflow.py:
-- Runs/Marks has the methods that write one run (mark_running, mark_finished, ...),
-- Runs/Operations those that write one operation run, Runs/Cancel the cancellation requests with
-- their recursion into child runs, and Runs/Queries those that only read. A method takes the
-- database and the clock and returns its answer with the database that it commits; a raised
-- exception is a value, and commits nothing. Runs/Calls has a call for every method that writes,
-- and histories of them: each method commits before it returns, so the calls of several workers
-- are some such list. Runs/Evolution, Runs/OperationEvolution and Runs/Sweep say what each method
-- may do to a row.
--
-- Recovery models src/services/workflows/workflow_run_recovery.py, whose writes are a call of the
-- histories too.
--
-- Engine models the scheduling loop of src/services/workflows/workflow_executor.py: Engine has the
-- tests of _dependencies_satisfied, _incoming_followups and _followup_branch_dead, Engine/Skips
-- the closure of a condition's skipped branch, and Engine/Loop the loop of _execute_operations,
-- with the batch that asyncio.gather returns taken in one result at a time. What an operation's
-- body returns or raises is a parameter, and so is when a cancellation is seen.
--
-- The same file's other parts have modules of their own. Execution models
-- _execute_single_operation, from the row that an operation gets to the verdict that is written
-- into it, with the retries and the output contract; Execution/WholeRun models execute_run, which
-- runs the loop and closes the run. Both work on the database of Runs, and `others k` are the calls
-- that other workers commit before the k-th of their steps. Payload models how an operation
-- reaches the data of its run: Payload has the paths and the references, Payload/Template the
-- texts with `${...}` in them, Payload/Conditions the operators of conditions, Payload/Mapping the
-- inputs that an operation is given, and Payload/Contract what its output must have. ForEach
-- models a for_each: the items, their results in any order of completion, and the recursion guard
-- that condition branches have too. Resume models resume_waiting_operation, which gives an operation
-- its answer and goes on with the graph; Resume/Known rebuilds the context from the rows.
--
-- RunService models src/services/workflows/workflow_run_service.py: the timeout of an operation that
-- waits, what a user is shown of it, the cancellation, and in RunService/Answering the resume.
--
-- Workflows models src/repository/workflow_repository.py with the service over it
-- (src/services/workflows/workflow_service.py): Workflows has the workflows and their names,
-- Workflows/Graph the operations, whose references between positions become keys when a graph is
-- stored. Schedule models the triggers of src/services/workflows/workflow_factory.py and enqueue_run
-- of src/services/workflows/workflow_run_service.py; cron expressions and the text of a time are
-- parameters. Named is the dict from texts in which Login and Limiter keep their entries.
--
-- Limiter models src/services/openai_usage_control.py: the sliding window of a minute that bounds
-- the requests and the tokens of a model, and the loop that waits for room in it.
--
-- Login models src/authentication/login_rate_limit.py: the entries of failed logins under a key of
-- address and email, with the clock in milliseconds, which makes int() a division.
--
-- Policy models src/services/assistants/orchestration/guarded_tool_policy.py: Policy/Text has the
-- text operations of Python that it uses, Policy/Rules one rule, and Policy the decision in the
-- source's order, cut where its early returns fall. Regular expressions, the resolution of paths
-- and float() are parameters, with the exceptions that the source catches as missing results. A
-- policy is read with the types of its fields.
--
-- Board models src/services/board_service.py over the rows of src/models/board.py: Board/Words has
-- the words of a column, a priority and an origin, Board the writes, Board/Order the order of a
-- column and Board/Pull the selection that a workflow fans out over.
--
-- Authz models src/services/authz_service.py: the reading of role names and the role checks, with
-- HTTP 403 as a false answer.
--
-- ToolGuard models src/services/assistants/tool_guard.py, with a raised ValueError as a value and
-- int() of a tool id as a parameter.
--
-- Checks of what a language model answers are in one file, for
-- src/services/assistants/plan_validator.py: what the JSON schema finds is a parameter there.
--
-- Table is the store: rows under a primary key, as SQLAlchemy's identity map gives them. Json is
-- the data of payload columns, and Prelude has what all modules share.
--
-- Four recursions have no structural bound and run on fuel. The cascade of a cancellation gets two
-- more than the number of runs, since each level marks a live run; the loop of the executor gets
-- one more than the number of pending operations, since each round takes one off; the rounds of a
-- condition's closure get one more than the number of pending operations, since each round but the
-- last adds one; a request that waits for room in the window gets 241 turns, since each wait is at
-- least a quarter of a second and an event leaves the window after a minute.
--
-- Not modelled: logging, traces and mail; in the executor the bodies of the operations that are not
-- named above, what a for_each writes to the rows of its children, and how a context is written
-- down; the other parts of the platform, most of which call language models, subprocesses and remote
-- services. Times are natural numbers in one unit, primary keys are given to the methods that
-- insert, and a write of the database does not fail.
pub mod Prelude
pub mod Json
pub mod Table
pub mod Named
pub mod Runs
pub mod Recovery
pub mod Engine
pub mod Workflows
pub mod Payload
pub mod ForEach
pub mod Execution
pub mod Login
pub mod Limiter
pub mod Policy
pub mod Board
pub mod Authz
pub mod ToolGuard
pub mod Plan
pub mod Schedule
pub mod RunService
pub mod Resume
