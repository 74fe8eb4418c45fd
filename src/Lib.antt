-- ===== src/Lib.antt =====
-- Diecast's server: the quality loop that renders go through with the registry of their jobs, the
-- diff of requirement blocks, the write-back of comments and change requests into a goal's
-- requirements file, the order in which the phases of a plan run, the runs of agents from trigger
-- to end with the memory of their errors, and the installer of hooks.
--
-- A maker agent renders a page and a checker agent judges it; the quality loop asks for reworks
-- until an attempt passes both gates, or chooses the best attempt when it must stop. A goal's
-- requirements are a Markdown file: each change of it is a snapshot in a table of versions, readers
-- comment on its text, and later phases propose changes, which are tested for conflicts against the
-- version they assumed and spliced into the file. The block diff says what changed between two
-- versions. A render job holds one of a bounded number of slots while it runs, and a reaper fails
-- the jobs whose thread has died. A manifest of phases is turned into groups that run one after the
-- other. The runs of agents are rows of a table, which a dispatcher launches up to a limit, a
-- monitor watches in their panes, and a recovery looks through at startup; a run may delegate to
-- others, and the tree of a run is shown with what is rolled up along it. The installer adds the
-- server's hooks to a settings file that other tools use as well, and takes them out again. Paths
-- below start at cast-server/cast_server.
--
--   Prelude            numbers, tests, lists, strings and the lemmas that the parts share; a string
--                      is the list of its code points
--   Quality/Float      what the code uses of Python's floats, as an interface
--   Quality/Verdict    render_common/verdict.py: the verdict, `derive_pass`, `canonical_score`
--   Quality/Attempt    render_common/quality_loop.py: `AttemptRecord`, `best_attempt`
--   Quality/Loop       the same file: `QualityLoopOps`, `run_quality_loop`, `decide_quality`, and in
--                      Loop/Retry `run_checker_with_retry`
--   Quality/Sentinel   render_common/sentinel.py: `extract_render`
--   Quality/Exploration services/exploration_render_service.py: `_ExplorationLoopOps`, the operations
--                      of the exploration render, with the gate of exploration_render/verdict.py
--   Blocks             requirements_render/block_diff.py and blocks.py: `diff_blocks`, `summarize`;
--                      Blocks/Matching is one of its two passes
--   Writeback/Versions services/requirement_version_service.py: `create_snapshot`, the look-ups,
--                      and `create_next` in Versions/Next
--   Writeback/Comments services/comment_service.py: five mutations (the migration to the render space
--                      is not modelled) and the event trail, and
--                      `_state_as_of` of requirement_version_service.py
--   Writeback/Conflict requirements_render/conflict.py: `detect_conflict`
--   Writeback/Splice   services/change_request_service.py: `verbatim_locate`, `_apply_addition`,
--                      `_apply_modification`
--   Writeback/History  requirement_version_service.py: `get_version_with_comments`
--   Writeback/Requests change_request_service.py: `gate_status`, `_verify_surgical`; the intake
--                      `create` in Requests/Intake; and `apply_change_request` in Requests/Pipeline,
--                      over the records of Requests/Apply
--   Jobs               render_common/job_runtime.py: `JobRegistry` with its slots and
--                      `reap_stale_jobs`; the rows of `render_jobs` in Jobs/Rows
--   Jobs/Flight        services/render_job_service.py: `_start_job`, the single flight of
--                      `request_render` and `_run_job_thread` as steps in any order
--   Orchestration      services/orchestration_service.py: `build_execution_groups`,
--                      `_reachable_forward`; `update_manifest_status` in
--                      Orchestration/Manifest, its columns in Orchestration/Header
--   Runs               services/agent_service.py: the runs, `cancel_run`, `delete_run`, `fail_run`
--   Runs/Finish        the same file: `_finalize_run`, `recheck_failed_run`, `recover_stale_runs`
--   Runs/Dispatch      the same file: an iteration of `_dispatcher_loop`
--   Runs/Delegation    the same file: `_get_delegation_depth`, `trigger_agent`, `invoke_agent`
--   Runs/Monitor       the same file and infra/state_detection.py: `_check_all_agents`,
--                      `_handle_state_transition`, `detect_agent_state`
--   Runs/Tree          the same file: `get_run_with_rollups` with `_assemble_tree`,
--                      `_compute_rollups` and `_detect_rework`; Runs/Course has the operations
--                      on runs as steps
--   Memory             services/error_memory_service.py: `extract_and_store_error`,
--                      `should_auto_retry`, `resolve_memory`
--   Polling            agents/_shared/polling.py, from the repository's root:
--                      `poll_for_terminal_output`
--   Hooks              cli/install_hooks.py and cli/hook_events.py: `install`, `uninstall`; JSON
--                      values with the order of their keys in Hooks/Values
--
-- The operations of the quality loop are a record of functions on the job's state, since the code
-- takes them as an object of methods; those of the exploration render are one such record. Its `while` is recursion on fuel, and `passes_left` plus one
-- is enough fuel. An operation of a service takes the tables and returns them; a transaction is one
-- such step. An exception is an error value. The clock, the hash (SHA-256) and its test are
-- arguments. A timestamp is an instant; ids are one above the greatest.
--
-- `apply_change_request` takes a `World` (the file's characters and the tables) and returns it with an
-- answer; the file's newlines are translated as it is read; the
-- parser of requirement files and whether the resolved paths are inside their roots are arguments.
--
-- The rounds of `build_execution_groups` are recursion on fuel, and one more than the number of
-- phases is enough; the fuel of `_reachable_forward` bounds the ids that it reaches, by the same
-- number. In-degrees are natural numbers: each is lowered once for an edge that it counts. The
-- installer works on the settings as a value: the file is read before and written after. A job's
-- state object is a position in a list of them, and a thread that has taken its state out of the
-- registry still lives for a step; parsing a time, the liveness of a thread and the
-- reaper's message are fields of a record `Host`.
--
-- A run keeps eleven of the columns of its row: what the operations write of output, artifacts, cost,
-- sessions and exit codes is left out. The state of the run service is the table, the timers that the module keeps by run id, and what is
-- on disk for a run; tmux, the agents' configuration and the parser of rate-limit times are fields of
-- records. The walk up a chain of parents takes as many steps as its safety limit leaves, and the
-- rows fetched for a tree are as deep as the query's cap, so neither needs fuel; a run that is fetched
-- below itself gives the error of an endless recursion in place of a tree. Times are whole seconds, and a difference of
-- times stops at 0, where the code's is negative and below every limit all the same.
--
-- The patterns and the hash of the errors are arguments: regular expressions and SHA-256. A memory's
-- table counts the occurrences that the dispatcher's test reads.
--
-- A status that is none of the three terminal ones is polled on, as the code does it, although the
-- delegation contract counts it as malformed. The wait for a child's output is recursion on fuel: where the file changes no more from some pass
-- on, that pass, the timeout and three are enough together.
--
-- Not modelled: the parser of requirement files, the agents and what they are asked, HTML, HTTP,
-- SQL and its errors, the manifest's parser, the prompts, usage and launching of agent runs, the
-- pages of their trees, the requirements render's operations for the quality loop, the rows that the services of invocations insert and close, the stages of a
-- render job's pipeline, and the services of goals and tasks. Where the placement of a new comment
-- in the page is used, it is an argument.
pub mod Prelude
pub mod Quality
pub mod Blocks
pub mod Writeback
pub mod Orchestration
pub mod Jobs
pub mod Runs
pub mod Memory
pub mod Polling
pub mod Hooks
