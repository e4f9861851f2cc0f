-- ===== src/Lib.antt =====
-- A model of the GPU health exporter (the C program under src/): one parent process polls each GPU in
-- a thread of its own and scores it, and sends a snapshot over a socket pair to an HTTP child, which
-- serves /metrics, /ready and /live.
--
-- The parts, and the files that model them:
--   Types       src/types.h: the structs. A C string is the list of its bytes without the NUL.
--   Double      the C `double` as an interface: the operations that the program calls, and the laws of
--               IEEE 754 that the theorems use (IsLawful). Double/Fixed is an instance for tests, and
--               Double/Lawful shows that it meets the laws.
--   Ring        ring_push of src/collector.c and the index arithmetic of src/scorer.c.
--   Util        src/util.c: str_trim, safe_strncpy, parse_int, parse_double, with strtol.
--   Config      src/config.c: cfg_table, cfg_defaults, config_load, config_validate. A field is
--               addressed by a name where the C code uses its offset.
--   Scorer      src/scorer.c: the statistics (Stats), the completeness gate (Gate), the blocks of
--               penalties in their order (Penalties), and score_gpu (Score).
--   Collector   src/collector.c and collector.h: do_nvml_poll (Nvml), apply_dcgm_state (DcgmState), dcgm_poll
--               of src/dcgm.c (Dcgm), and poll_thread (Poll): `poll_round` is one round of its loop
--               and `run` is any number of them.
--   State       src/state.c: baseline_load and probe_load, over the text of the file, and the watch of
--               the baselines, which the poll threads share, with the queue of inotify behind its
--               reads (Watch).
--   Snapshot    src/snapshot.c: snapshot_update (Update), snapshot_send and snapshot_recv (Transfer).
--   Http        src/http.c: ipc_receiver_thread and check_liveness (Slots), read_request_line and
--               handle_request (Request), /ready from end to end (Ready), bprintf (Buffer),
--               write_response (Reply, and Connection for its writes), render_metrics (Metrics: the
--               macros in Family, the tables of the families, and Render; Scrape is a reader of the
--               text), http_accept_loop (Serve, with the socket timeouts in
--               Hangs), http_child_run (Child), the set-up of TLS and of the
--               listening socket (Listen), and /metrics from the messages
--               to a scraper (Scraped).
--   Privileges  src/procpriv.c: the seccomp filter as a program of BPF, and the two set-up functions.
--   Library     src/nvml.c and src/dcgm.c: nvml_load, dcgm_load and the unload functions.
--   Process     src/main.c: the options, the start and shutdown_all (Startup; Permit says when each call
--               is allowed, Shutdown and Resources what is left, Choice which way the start takes), the wait for the first poll and
--               sd_notify_ready (Notify), the contexts of the GPUs
--               (Identity), and spawn_http_child, both sides, with the monitor loop (Spawn); dcgm_setup and
--               dcgm_teardown of src/dcgm.c (DcgmSetup); src/filesd.c (FileSd).
--   HealthProbe probe/gpu_health_probe.cu: the two files that it writes, its options, and its main (Run);
--               Lines and Keys are about the lines of these files, as State reads them.
--   Tests       runs on concrete inputs.
--
-- How they interact: main loads the libraries, sets up the contexts with their files, starts a poll
-- thread for each, and spawns the child, which learns the number of GPUs from a first message and
-- is spawned again when it ends. config_load gives the configuration that poll_thread and score_gpu
-- read; a round pushes one sample into the ring, scores ring, state, baseline and probe, and sends
-- the snapshot; the receiver stores it in the slot of its GPU, from which the requests are
-- answered.
--
-- What the system answers is input: an `Env` holds what NVML, DCGM, the clock, inotify and malloc
-- give in one round, a list of calls holds what read, write and conn_read return, and getenv is a
-- function. The loops are structural in these lists, so no fuel is needed, but in two places:
-- decimal_from takes one more than the number, which has no more digits than that, and the reads of
-- the inotify queue take its length, since each read takes an event. A list that ends too early is
-- a process that waits; it never counts as one that succeeds. On a connection of the HTTP child the
-- socket timeouts make such a call fail (setsockopt is taken to set them; the code ignores its
-- result; and mbedTLS to return an error for a call that times out), and without them the accept
-- loop gets no further. The child is a schedule of events, in which a message of the parent is one
-- step and serving a client another. How printf writes a double, and what dlsym finds, are
-- arguments. A difference of `uint64_t` is written `% 2 ^ 64`. The int fields of the configuration
-- are natural numbers, since no row of the table allows a negative one; the counters of errors in a
-- row stay far below 2 ^ 31. qsort is insertion sort with cmp_double, which the C library may
-- replace by any other sort. The code that a failing NVML call returns is not 0.
--
-- Not modelled: conn_read, conn_write and conn_close of src/http.c, whose results are input; the log;
-- the load that the probe puts on the GPU; the mutexes: a section under a mutex is one step. A signal
-- is a step that clears g_running.
pub mod Prelude
pub mod Double
pub mod Types
pub mod Ring
pub mod Util
pub mod Config
pub mod Scorer
pub mod Collector
pub mod Snapshot
pub mod State
pub mod HealthProbe
pub mod Library
pub mod Http
pub mod Process
pub mod Privileges
pub mod Tests
