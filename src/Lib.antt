-- ===== src/Lib.antt =====
-- The antivirus: what the kernel module of av/ and its daemon userspace/avd decide and keep.
--
-- The program. A kernel module probes execve, open, unlink and rename. A handler that is admitted
-- (av/main.c) queues a work item. The work item of an execve hashes the file, records the exec with
-- the behavioural engine (av/behavior.c), looks the digests up in the signature store
-- (av/sigtable.c), asks the userspace daemon over netlink (av/netlink_chan.c) where no signature
-- matches, and may kill the process. The work items of the other calls run the behavioural checks,
-- which count distinct paths in trailing windows and look for sensitive paths, and may kill too. An
-- operator fills the signature store, the trust list and the protected list and chooses the policy
-- without a daemon through files of /proc.
--
-- The daemon puts each request of the kernel into a bounded queue. A worker takes it out and scans
-- the file: YARA rules with weights, a fuzzy corpus and a TLSH corpus decide; a file that is
-- convicted is put into the quarantine directory with a sidecar that says where it came from, and
-- every scan is logged in a ring of 500. A control socket, open to every user, answers questions
-- about the log and the quarantine, and lets root restore, delete and scan.
--
-- Files and what they model.
--   Common       Boolean tests, lists in place of arrays, C strings as the bytes before the NUL
--                (Strings), the parts of sscanf that the handlers use (Scan), strtoul, strtoll and
--                printed numbers (Numbers), fgets (Stdio), error numbers.
--   Kernel       the kernel's full_name_hash and hash_min, of which only the bound is used.
--   HashTable    linux/hashtable.h: chains and walks (Chain), tables as finite maps (Keyed).
--   Sigtable     av/sigtable.c: av_sigtable_add, _del, _match, _count, _algo_count; Proc has
--                sig_proc_write and sig_proc_show. Valid is the invariant, Counts, Laws and Map are
--                about add and del, Match about match, ProcLaws and RoundTrip about the proc file.
--   Behavior     av/behavior.c. Window: sliding_window_note on a ring, the log that it stands for
--                (Log, View, Refine) and what its count detects (Detect). Paths: the path tests.
--                Trust, Protected: the two lists and their proc handlers. Entries: the table of
--                processes, evict_lru_entry, get_or_create_entry, av_behavior_record_exec,
--                behavior_gc_fn. Checks: kill_with_reason and the three av_behavior_check functions.
--   Monitor      av/main.c. Admission: av_work_admit and av_work_release. Path:
--                normalize_abs_path, against a definition from the end of the path (Resolve).
--                Monitor/Resolve: resolve_absolute_path. Digests: bin_to_hex and
--                hash_file_multi. Policy: the daemon policy file. Verdict: av_kill and av_work_fn.
--   Netlink      av/netlink_chan.c: each section under a lock and the atomic increment is a
--                function, Steps their interleavings. What a write to a scan that was freed under
--                the handler does to the memory's next owner is not modelled.
--   Sha256       userspace/avd/sha256.c. Feed is the byte-wise view, Stream sha256_update, Pad the
--                padding loop of sha256_final, Fips the constants and the compression of FIPS
--                180-4, written from the standard, Reference the whole against it.
--   Daemon       userspace/avd/avd.c. Meta: the sidecars. History: record_verdict_history (Ring) and
--                cmd_verdicts_recent (Recent). Scan: yara_callback (Yara), perform_scan (Decision),
--                the corpora (Corpus). Quarantine: quarantine_file (Seize), restore (Restore,
--                Confined), list (Listing). Control: read_line, handle_control_line,
--                control_conn_main (Guard). Queue: enqueue_scan_task and scan_worker_main on a heap
--                of tasks (Cells, Fifo, Safe).
--                Trust: dir_hierarchy_trusted (Sound). Slots, Socket: the connections and the
--                creation of the control socket. Tunable: parse_tunable_env.
--   Avctl        userspace/avctl/avctl.c: the checks, do_load, next_line and expect_ok (Client).
--   Tests        runs of the definitions on concrete inputs, and each result at one of them.
--
-- How the code is read. A function takes the state it locks and returns it, with an error number or
-- none for the return value 0. An argument `alloc` says whether memory is there. Jiffies, the
-- daemon's answer, the file that was opened and the task that a pid stands for are arguments; the
-- conversion of jiffies to milliseconds is a parameter, and so are the crypto API and the reads of a
-- file. A pointer to an entry of the table of processes is its pid. Counters keep the width of the
-- source: 64 bits for the store, 32 for the table of processes and the admission, 64 for request ids
-- (the results on the channel are for less than 2 ^ 64 requests). Every loop is over a list or an
-- array and recurs on it; the one search with fuel, for a substring in a path, has the length of the
-- path and one more, and its result is stated without the fuel. In the daemon's code a call of the
-- system is an argument that says how it ends, and what a command does to the file system is a list
-- of calls, in order. sha256_update has fuel for one turn a byte, and its padding loop for 64 turns,
-- which are shown to be enough.
--
-- What is not modelled. The probe handlers' access to registers and user memory, the registration of
-- probes, proc files and the netlink family, log lines, and the release of memory on unload: calls
-- of the kernel. Of the daemon, main, the compilation of the rules, the netlink connection, threads
-- and signals. YARA, libfuzzy and the TLSH code, a port of another project's library, are arguments.
-- Of the command line tool, do_save and what prints. The Python front end is a separate program.
pub mod Common
pub mod Kernel
pub mod HashTable
pub mod Sigtable
pub mod Behavior
pub mod Monitor
pub mod Netlink
pub mod Sha256
pub mod Daemon
pub mod Avctl
pub mod Tests
