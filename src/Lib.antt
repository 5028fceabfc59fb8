-- ===== src/Lib.antt =====
-- Laboratory works on system software in C: a shell, kcsh (lab4), servers that publish their
-- state and programs of synchronized threads (lab5), and a directory server with a pool of
-- threads (lab6). lab1 is a shell script.
--
-- Prelude passes on the names of the library and adds Boolean tests, lists over native numbers,
-- families that change at one index (Family), C strings as the bytes before the NUL (CString),
-- the name of a program behind its last slash (BaseName) and signed integers (Int).
--
-- Kcsh models the shell. Kcsh.Outcome is how its functions end: a value, `_exit` with the
-- status that `error` of lab4/io.c computes, or an access outside the memory at hand. What an
-- allocator answers is an argument of the function that asks (`granted`). Kcsh.Job is
-- lab4/job.c: add_job, get_job, get_job_id, delete_job_by_id and delete_job_by_pid over a block
-- of memory with its size in bytes, so that the request of `realloc` is compared with what is
-- then written. Kcsh.Variable is lab4/variable.c, over the list of the entries in use; the
-- environment is the argument `getenv`. Kcsh.Builtin is lab4/builtin.c over any type of
-- functions. Kcsh.Lexer is the tokenizer of lab4/parser.c (is_space, is_separator, get_arg,
-- put, get_splitted): strings are values there; of their blocks only the byte is modelled that
-- `get_arg` writes behind the one that it asks for (end_arg). split_args is `get_splitted`
-- behind its first loop. Its loop runs on fuel, one more than the length of the line, and each
-- round consumes at least one byte. Kcsh.Editor is get_line of lab4/io.c: the record Editor has
-- `line`, a block of 1024 bytes, `pos` and `length`; Kcsh.Editor has strshl, strshr and the
-- keys, Kcsh.Editor.Complete the completion of file names over the listings that the system
-- answers, Kcsh.Editor.Loop the loop over what `read` gives. Kcsh.Editor.Text is the text with
-- a cursor that the keys are meant to edit. Kcsh.Number is sayi, sayul and errc_to_a of
-- lab4/io.c. Kcsh.Unfold is unfold_variable and get_splitted, the loop that calls it and then
-- the tokenizer, over the block of the line; `slack` is what an allocator gives beyond a
-- request, and the loop has a round more than the block has bytes. Kcsh.Command is make_cmd and
-- make_cmdv of lab4/parser.c over the slots of the vector of tokens: Kcsh.Command has the
-- commands and the parts of the body, Kcsh.Command.Parse the loop, one clause of
-- `after_connect`, `after_out` and `after_from` for each `return false`. The loop of make_cmdv
-- has a round more than the vector has slots, and so has the loop that skips separators. What
-- the allocator gives beyond a request is an argument (copy_name), since the blocks for file
-- names are two bytes too small.
--
-- Kcsh.Launch is fork_and_exec of lab4/kcsh.c and the loop of main over the commands of a line:
-- the table of open files as a list of entries, what `pipe`, `open`, `dup2`, `fork`, `execvp`
-- and `waitpid` answer as an argument (System), a program as its arguments and the files that
-- it starts with. The loop has one round more than there are commands. Kcsh.Launch.Child has
-- the files of one child, Kcsh.Launch.Pipeline those of all the commands of a line.
-- Kcsh.Functions is lab4/builtins_impl.c, with goodmorning of lab4/kcsh.c: a Process is what
-- the functions change. Kcsh.Main is a round of the loop of main, from the line that get_line
-- returns to the variables `?` and `_`; Kcsh.Main.Round puts the parts together.
--
-- Multithread models lab5/multithread.c, and the loop body in which lab5/multithread7.c
-- differs. Multithread.Passes has the bodies of `reverse` and `change_register` as code that
-- loads and stores one byte at a time (Multithread.Code), Multithread.Sync the choice of a
-- semaphore and its operations, Multithread.Threads one round of `main`: two threads,
-- interleaved access by access. A semaphore is its counter. Multithread.Loops is
-- lab5/multithread6.c and lab5/multithread7.c: two threads that loop under a mutex or a
-- reader-writer lock (Held) and a third one that looks at the string, from the moment at which
-- `init_sync` returns, where no thread has called `lock` before; Multithread.Loops.Serial has
-- the invariant, and Multithread.Loops.Orbit the four strings that the two bodies make of one.
--
-- StateServer models lab5/server.c and lab5/client.c. What stands at the key 2987 and at the
-- name S_FNAME is the record Objects, the three servers are the three values of Mode, and an
-- Event is what the system answers in one round of the loop; a signal comes while the server
-- sleeps. StateServer.Client is what a client shows, StateServer.Clean is about what a server
-- leaves when it ends, StateServer.Shown about what it publishes, StateServer.Choice about
-- which one `main` starts. StateServer.Clock is `update` of lab5/unixserver.c and
-- lab5/signalserver.c, which answers of the clock drive; StateServer.Socket is the server of
-- lab5/unixserver.c, over a list of clients and signals, with the client of lab5/unixclient.c,
-- and StateServer.Signal that of lab5/signalserver.c.
--
-- Pipes is lab5/pipes.c: its loop over the bytes of a file, and how `main` ends.
--
-- DirServer models lab6. DirServer.Queue is lab6/queue.c over an explicit heap (DirServer.Heap)
-- with any allocator; the fuel of `queue_destroy` is two rounds. DirServer.Pool is the pool of
-- lab6/server.c: `worker` and `service_client` with the loops of `main`, interleaved, where a
-- block between lock and unlock of a mutex is one step, `queue_dequeue`, which no lock protects
-- there, is two, and a wait on the condition may end at any time. The client queue is seen
-- there as the latch that DirServer.Queue.Contract shows it to be. Counters of type `size_t`
-- wrap. DirServer.Exit is the set-up of main and `cleanup`, over the heap of the queue:
-- DirServer.Exit.Clean is what `cleanup` closes and frees, with two rounds for each of its
-- loops (whether `pthread_cond_destroy` returns is an argument, `destroys`), and
-- DirServer.Exit.Begun how the set-up ends. DirServer.Requests is do_work of lab6/server.c:
-- what `read` and the allocator answer and what new memory holds are arguments (Environment);
-- its loop of requests has a round more than there are reads. DirServer.Client is what main of
-- lab6/client.c sends and shows.
--
-- Not modelled: what system calls do beside the answers named above, signals that come while
-- code other than `usleep` or `accept` runs, printing; the signal handler of the shell, its
-- terminal and its messages; in lab6 what the system does with sockets and addresses, and the
-- exits of the running server; lab1.
pub mod Prelude
pub mod DirServer
pub mod Kcsh
pub mod Multithread
pub mod Pipes
pub mod StateServer
