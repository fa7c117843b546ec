-- ===== src/Lib.antt =====
-- rclone-kit: a Python library that drives rclone through its rc API.
--
-- Parts. A client starts rclone jobs through `RcloneRcJobClient` (src/rclone_kit/rc/jobs.py), which
-- turns the wire JSON of `job/status`, `job/batch` and `core/stats` into the values of
-- src/rclone_kit/operation.py. A monitor (src/rclone_kit/job.py) shares a record with each job's
-- handle, polls the jobs on a thread of its own, and settles a record once with a result or an
-- exception. Partitioned operations (src/rclone_kit/partitioned_job.py) add up the results of
-- several jobs. Large objects are split into parts (src/rclone_kit/types.py), which are read and
-- uploaded by src/rclone_kit/s3/chunk_task.py and src/rclone_kit/s3/multipart, and merged there.
-- Remotes are authorized by src/rclone_kit/authorization: a manager queues sessions and admits one at
-- a time, whose driver thread walks through rclone's questions over src/rclone_kit/rc/auth.py.
-- Directories are listed and walked by src/rclone_kit/operations and src/rclone_kit/fs, behind the
-- bounded queue of src/rclone_kit/background_producer.py, and operations on many files start a
-- job for each group of them.
--
-- Files.
-- Base and its children: shared names, results that may raise, the integers, JSON, decimals.
-- Types: `Range`; Types/Parts: `PartInfo` and `split_parts`; Types/Names: `_gen_name` of
--   upload_parts_resumable.py and `_parse_part_number` of info_json.py; Types/Tiling has proofs.
-- Operation: the value types with the checks of `__post_init__`; Operation/Partitioned:
--   `aggregate_results`; Operation/Aggregate has proofs.
-- Rc/Payload and Rc/Jobs: the readers of rc/jobs.py; Rc/JobClient: the interface that the monitor
--   has of rclone, and `RcloneRcJobClient` over any callable; Rc/Jobs/Batch has proofs.
-- Job: the state of `_JobMonitor`; Job/Settle: `_apply_poll_outcome` and what it calls; Job/Polling:
--   starting, cancelling and polling; Job/Handle: `JobHandle`; Job/Shutdown: `shutdown`;
--   Job/Partition: `PartitionedJobHandle`. Job/Reach has the steps of the monitor as a relation; Job/Phase, Job/Writes, Job/Tracked, Job/Runs,
--   Job/Settled and Job/Progress have proofs.
-- Multipart/Pieces: finished_piece.py and upload_info.py; Multipart/Chunker: chunk_task.py;
--   Multipart/MergeState: merge_state.py; Multipart/UploadState: upload_state.py; Multipart/InfoJson:
--   info_json.py. Multipart/Chunker/Fetches, Multipart/UploadState/Saving and
--   Multipart/InfoJson/Coverage have proofs. Multipart/Merge with
--   Multipart/Merge/Keys, Multipart/Merge/Begin and Multipart/Merge/Writer:
--   upload_parts_server_side_merge.py, with proofs in Multipart/Merge/Remaining and
--   Multipart/Merge/Complete.
-- Auth: types.py of authorization; Auth/Wire: rc/auth.py; Auth/Driver: state_driver.py, with proofs in
--   Auth/Driver/Judged, Auth/Driver/Follows and Auth/Driver/Calls; Auth/Session: session.py, with
--   proofs in Auth/Session/Ends; Auth/Manager: the sections of manager.py, Auth/Manager/Threads their
--   interleavings, Auth/Manager/Invariant what is kept of the queue; the other files of
--   Auth/Manager have proofs.
-- Grouping: the tree of group_files.py, with proofs in Grouping/Weight and Grouping/Shallow;
--   Grouping/Prefix: its common prefix. Paths: rc/paths.py, with proofs in Paths/Splitting.
-- Multipart/Resumable: upload_parts_resumable.py, with proofs in
--   Multipart/Resumable/Returns.
-- Listing: listings up to `DirListing`. Walk: operations/walk.py; Walk/Tree: the trees that a walk meets, with
--   their orders; Walk/Depth and Walk/Breadth have proofs. Walk/Parallel: fs/walk.py, with proofs in
--   Walk/Parallel/Fifo and Walk/Parallel/Backlog. Producer: background_producer.py as a step relation, with proofs in Producer/Sound and
--   Producer/Ends.
-- Scan: scan_missing_folders.py and the paths of dir.py, with proofs in its children.
-- Transfer: the batches of transfer_ops_embedded.py, with proofs in
--   Transfer/Pacing; Transfer/Options: transfer_options.py, with proofs in Transfer/Options/Lookup and
--   Transfer/Options/Overlay.
-- Examples: tests and concrete runs.
--
-- How code corresponds. A dataclass is a record with the same fields, its `__post_init__` a function
-- into `Result`, which holds the value or the exception. Records that the handle and the monitor
-- share live on a heap. A section under a lock is one step, and `Reach` is any sequence of such steps,
-- with any answers of rclone, also late and wrong ones. rclone is a record of functions on a world
-- that is passed along; `datetime.fromisoformat` and the clock are parameters.
-- Python's ints are ℤ, or ℕ where a check keeps them from being negative; floats are whole numbers
-- of a small unit, and datetimes are aware instants.
--
-- Fuel. `part_loop` has a round for each byte, and every round takes at least one; the loop of
-- `next_part_number` stops one past the largest number done; that of `file_chunker` takes a higher
-- part number in each round, none above the final one. The loop of `drive` has fuel above a rank that
-- rclone's states are assumed to have, and that of the common prefix more than the first path has parts.
-- A walk has fuel for every directory of its tree, and the batches for every partition. The scan for
-- missing folders has fuel for the depth of its calls and for each walk: it ends from
-- some fuel on, and what is stated of where the folders lie holds for any fuel.
--
-- Not modelled: the calls of ctypes, boto3, HTTP servers, mounts, the database and the file system,
-- and the facade of the client, which only dispatches to the parts above; log messages and the
-- messages of exceptions; the timeouts of `wait`, since no clock is modelled that threads wait for;
-- the relay of a callback and the texts of URLs, whose results are arbitrary values here; from an
-- entry that rclone lists to its `RPath`, the stream of a listing and the reports of a check, which
-- are wire formats; sizes as texts, which go through floats; the closing and the cleanup of a
-- server-side merge.
pub mod Base
pub mod Types
pub mod Walk
pub mod Listing
pub mod Producer
pub mod Scan
pub mod Transfer
pub mod Operation
pub mod Rc
pub mod Job
pub mod Multipart
pub mod Auth
pub mod Grouping
pub mod Paths
pub mod Examples
