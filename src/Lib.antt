-- ===== src/Lib.antt =====
-- daemonproxy: a process supervisor that a script controls over pipes, by lines of tab-separated words.
--
-- The program, by its files (paths from the repository's root):
--   src/strseg.c       length-terminated strings: comparison, tokens, integers and sizes
--   src/signal.c       the table of received signals, filled by the signal handler, read by the rest
--   src/service.c      the services: their variables, and the state machine that starts and reaps them
--   src/controller.c   the connections to the controlling scripts: commands in, events out
--   src/fd.c           the named file descriptors that services are given
--   src/log.c, src/control-socket.c, src/options.c, src/daemonproxy.c  the rest, and the main loop
-- In each round of the main loop the pending signals are merged, reaped processes are handed to their
-- services, the controllers run their commands, and the active services run.
--
-- The modules:
--   Common    what the others share: Boolean tests (Common/Compare), lists and byte strings
--             (Common/Lists), and 64-bit patterns with the comparisons of timestamps (Common/Word)
--   Strseg    src/strseg.c: `cmp`, `tok_next`, `split_1`, `atoi`, `parse_size` after strseg_cmp,
--             strseg_tok_next and so on. Strseg/Cmp is about the order, Strseg/Token about the tokens,
--             Strseg/Number about integers and sizes
--   Signal    src/signal.c: `record_signal`, `sig_handler`, `merge_new_signals`, `get_new_events`,
--             `mark_seen`, with the loop that src/controller.c and src/service.c make over the events.
--             Signal/Record is about counts, Signal/Oldest about one event, Signal/Deliver about the loop
--   Service   src/service.c. Service/Vars has `get_var` and `set_var` (svc_get_var, svc_set_var) on the
--             packed buffer, and below it the entries that the buffer stands for, the search, the copies,
--             the refinement and the laws. Service/Machine has `handle_start`, `cancel_start`,
--             `handle_reaped`, `run` and `do_fork`, and below it the invariant, the runs and the restarts.
--             Service/Settings has `set_tags` and `set_argv` (svc_set_tags, svc_set_argv), `set_fds`,
--             `set_triggers` and `set_restart_interval`, and `sig_num_by_name` of src/signal.c
--   Controller  src/controller.c. Controller/Send has `write_to` (ctl_write to one connection) and
--             `flush_outbuf`, and below it the lines, what a script can read, the flush and the write.
--             Controller/Receive has `read_more`, `next_command` and `end_command`, `serve` as the loop over
--             them, and below it the stream of commands, the reads, the rounds and the loop.
--             Controller/Flags has the options of `fd.open` and the events of descriptors, and
--             Controller/Files the commands on them, `cmd_fd_open` and so on after ctl_cmd_fd_open, with
--             Files/Opens about `fd.open` and Files/Keeps about all of them.
--             Controller/Poll has `poll_all`, the loop of ctl_run that flushes the connections and gives up
--             on blocked ones, and `event_timeout` (conn.event_timeout), with Poll/Blocks about what a
--             flush leaves, Poll/Wakes about the loop and Poll/Timeouts about the command.
--             Controller/Logging has the commands `log.filter` and `log.dest`, Controller/Signals has
--             `signal.clear`.
--             Controller/Terminate has `get_arg_int`, `terminate` and `terminate_guard`
--   Log       src/log.c: `log_write`, `write_out` and `log_flush`, `attach`, `fd_set_name` and `log_run`
--             (log_fd_attach and so on). Log/Level has the levels and their names; Log/Told is about what
--             becomes of each message, Log/Drain about a log that was blocked, Log/Silent
--             about one that stays silent
--   RbTree    src/Contained_RBTree.c: `add`, `find` and `balance` (RBTree_Add, RBTree_Find,
--             RBTreeNode_Balance); RbTree/Spot has `get_next` and `get_prev`, RbTree/Prune has `prune`.
--             RbTree/Balance and RbTree/Contents are about colors and order
--   Fd        src/fd.c: `delete` and `by_name` (fd_delete, fd_by_name), and in Fd/Make `new_file` and
--             `new_pipe` (fd_new_file, fd_new_pipe). Fd/Laws, Fd/Replace, Fd/Place, Fd/Ends and Fd/Olds are
--             about the index; Fd/File, Fd/Pipe, Fd/Delete and Fd/Twice about the operations
-- Each Examples module applies theorems at concrete inputs, and runs tests.
--
-- State. A `strseg_t` is the list of its bytes, or `spent` behind its last token. A signal table is a
-- list of slots. The variables of a service are the list of the buffer's bytes; pointers into it are
-- offsets, and the bytes that a realloc leaves undefined are a parameter. A service is a record with
-- flags for its places in the active list and in the index by pid; `World` adds `wake->now`,
-- `wake->next` and the events sent. Timestamps are the 64-bit patterns of int64_t, whose differences
-- wrap; an `int` count is a 32-bit pattern. A connection is its send buffer, its flags, what its pipe
-- has taken, and the pipe's answers to the writes to come; behind the last answer the pipe is full. A
-- node of a red-black tree is its subtree with the path of its parents, the nearest first, where the
-- source has pointers. A pointer to a descriptor object is a number that no earlier object had, and the
-- index of the descriptors by name is the list of its objects in order.
--
-- Fuel. `fields` gives the token loop a round for each byte and one more; `search` gives the search for
-- a variable the same, since each round consumes a byte; `events_since` gives the event loop a round for
-- each slot and one more, since each event leaves one slot less that is later; `svc_run` gives a run of
-- the state machine three rounds, since it makes two gotos at most. `serve_all` has two rounds for each
-- byte to be read, one for each in the buffer, one for each answer, and two more, since each round takes
-- one of these. `flush_outbuf` has two rounds for each answer of the pipe and four more, and `write_to`
-- one for each byte that waits and one more, since a flush that makes progress takes a byte at least.
--
-- Not modelled: system calls, whose answers are parameters (`ForkEnv`, `FdEnv`, `Storage`, `Answer`,
-- `ReadAnswer`, `LogAnswer`); the texts that the other parts log; the child's side of a fork; the other
-- commands of the controllers; the control socket, options and main loop. The events sent are recorded
-- where src/service.c hands them to src/controller.c.

pub mod Common
pub mod Strseg
pub mod Signal
pub mod Service
pub mod Controller
pub mod RbTree
pub mod Log
pub mod Fd
