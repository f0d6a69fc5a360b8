-- ===== src/Lib.antt =====
-- codexSync keeps the state directory of an application (.codex) in step between the machines
-- of one person, through a folder that a cloud client carries. This library models the parts of it
-- that decide what is written, and proves what they promise.
--
-- How the parts interact. A run of the engine scans both sides into two indexes, reads the manifest
-- (src/codexsync/manifest.py) for what this machine saw last, and has the planner
-- (src/codexsync/planner.py) build the copies, deletions and conflicts. Before anything is replaced
-- it opens a journal (src/codexsync/mutation_journal.py), whose states say how far the run came; a
-- journal that is still open blocks the next run. After it the manifest is built again and saved.
-- Session histories are append-only and are compared record by record
-- (src/codexsync/semantic_merge.py), so that one branch is replaced only by its own continuation.
-- The engine (src/codexsync/sync_engine.py) stages every payload, saves every file that is to change and
-- only then replaces; run_sync (src/codexsync/app.py) ties it to the journal through its hooks, under the
-- operation lock (src/codexsync/operation_lock.py). A run that was interrupted is closed by
-- src/codexsync/recovery.py. Before anything is written, the safety gate (src/codexsync/safety_gate.py) samples whether the
-- application is running. Beside all this the Guardian keeps verified snapshots of one state file, with
-- a pointer to the latest good one (src/codexsync/guardian_pointer.py), and prunes the old ones
-- (src/codexsync/guardian_retention.py). A working set (src/codexsync/session_scope.py) says
-- which session histories a transfer may bring to a machine.
--
-- Which file models which part:
--   Models         src/codexsync/models.py: FileMeta, CopyAction, DeleteAction, SyncPlan, the manifest.
--   MachineId      normalize_machine_id of src/codexsync/guardian_models.py; `Laws` is about it.
--   Planner        src/codexsync/planner.py. `Planner` holds the pass over all paths (plan_entry is the
--                  body of its loop), `Collisions` _case_collisions, `Roots` the include roots.
--                  `Verdict` says in one place what the plan does with a path, `Tally` counts the entries
--                  that the loop adds; `Outcomes`, `Deletions`, `Copies` and `Places` prove
--                  properties of build_sync_plan from these.
--   Manifest       src/codexsync/manifest.py. `Baselines` is about load and save, `Build` about
--                  build_manifest and the planner's view of its result.
--   Journal        src/codexsync/mutation_journal.py, the folder as a dict from file stems. `Snapshot` holds
--                  the pattern of backup names, `States` and `Writes` are about transition, `Abandoned`
--                  about close_abandoned, `Begin` about begin.
--   SemanticMerge  src/codexsync/semantic_merge.py. `Canonical` holds canonical_digest, `SharedPrefix` the
--                  shared beginning of two lists of records, `Relations` proves the classification.
--   SafetyGate     src/codexsync/safety_gate.py. `Window` is about the stable window of check, with the laws of
--                  the clock that its end rests on, `Requirement` about require.
--   Guardian       src/codexsync/guardian_pointer.py and verify_guardian_snapshot of
--                  src/codexsync/guardian_manifest.py, over the folder of one machine as a dict. `Retention`
--                  holds prune_snapshots of src/codexsync/guardian_retention.py. `Pointer` and `Publication`
--                  are about latest-good, `Walks` about the entries a walk finds, `Pruning` and
--                  `Predecessor` about what pruning keeps. `Shrink` is src/codexsync/guardian_shrink.py,
--                  `Drops` is about its bounds.
--   SessionScope   src/codexsync/session_scope.py and ChatDirectory.find of src/codexsync/chat_directory.py.
--                  `Subthreads` is about one pass over the chats, `Covered` about the whole search,
--                  `WorkingSet` about the chats that are named and all that a working set holds.
--   Engine         src/codexsync/sync_engine.py, with backup_file and finalize of src/codexsync/backup.py and
--                  src/codexsync/fs_replace.py. `State` is the world of a run: the files, the stage files, the
--                  snapshot and the outcomes of the calls to come. `Posts` is about what each step keeps,
--                  `Resting` the same for the backup, `Backups`, `Prepared`, `Staging` about the phase before
--                  the commit, `Targets` holds the paths of a plan, `Landing` and `Removal` are about the
--                  commit, `Unstaging` about the end; `BackupFirst` and `Delivery` prove what execute promises.
--   SyncRun        run_sync of src/codexsync/app.py: the engine, the journal and the safety gate together.
--                  `Phases` is about how far the journal is at each step, `Ends` about how a run ends.
--   Recovery       src/codexsync/recovery.py: resume, rollback and the listing of journals. `Refusals`
--                  holds why a rollback is refused, `Listing` the description of one journal. `Closing` is
--                  about _close and resume_operation, `Answers` and `Offers` about what the listing says of a rollback.
--   OperationLock  src/codexsync/operation_lock.py, as a step relation over the threads that enter and leave;
--                  `Invariant` is about every reachable state, `Exclusion` about who is inside.
--   SessionIndex   the merge of src/codexsync/session_index.py. `Turns` is about its loop, `Merge` about each
--                  session's fate.
--   Base           shared helpers: Boolean tests, lists, dicts as association lists with distinct keys,
--                  results, signed integers, texts, JSON values.
--   Tests          runs on concrete inputs, one module for each part.
--
-- State is passed explicitly: a plan under construction is a SyncPlan that each step takes and returns,
-- a folder of journals is a dict that each operation returns. Errors are values of `Result`. Python's
-- dicts keep distinct keys, which stands as the hypothesis NodupKeys where it matters. A `Path` is its
-- text. Integers of Python are unbounded: times and JSON numbers are ℤ, counts are ℕ.
-- Every loop is structural recursion, but two: the window of SafetyGate.check runs on as much fuel
-- as the window has nanoseconds, and one more, which the clock is proved not to use up; the search for
-- sub-threads runs one pass more than there are chats, since each pass but the last adds a chat.
--
-- Parameters, for code outside the repository: str.casefold, the SHA-256 of a file or of records,
-- the decimal class of the regular expressions, json.loads, NFC tests and the dump of a value, and what
-- a file that cannot be read yields, the process detector, the clock, `sleep`
-- and the thread catalogue. Whether a journal can be written is a test that the folder and the journal are
-- given to (`Disk`): every write of a journal may be refused. No property assumes anything of these
-- parameters but what it names.
--
-- Not modelled: reading and writing bytes (a write happens or not; a copy of the engine may also write
-- something else, and any call may fail), clocks and random names (arguments), messages for a person
-- and log lines, the window, the command line, configuration files, packaging. The planner can read
-- every file it hashes. The sweeping of stage files that an earlier run left behind is not modelled, nor are
-- the errors of opening a lock file.
pub mod Base
pub mod Models
pub mod MachineId
pub mod Planner
pub mod Manifest
pub mod Journal
pub mod SemanticMerge
pub mod SafetyGate
pub mod Guardian
pub mod SessionScope
pub mod Engine
pub mod SyncRun
pub mod Recovery
pub mod SessionIndex
pub mod OperationLock
mod Tests
