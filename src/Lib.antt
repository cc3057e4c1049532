-- ===== src/Lib.antt =====
-- A verification library for the FTP server: the process that serves one client, from the first byte of
-- a command to the calls that it makes on the file system; the master process that accepts the clients
-- and is told what they do; and the configuration that both read.
--
-- The parts of the program, and where they are:
--   * vfs.c: `vfs_realpath` in Vfs/Realpath, the operations on paths in Vfs/Ops. Vfs/Stack is what path
--     resolution promises, a stack of names, and Vfs/Refine relates the two.
--   * util.c: Text/Util (strings) and Text/Time (`is_leap`, `convert_time`, `msecdiff`), Transfer
--     (`accept_data_conn`), Master/Pipe (`seek_pipe`); Text/Ctype and Text/Number are the functions of
--     the C library that the program uses.
--   * server.h, config.h, signals.h: Machine/Types, the session and the state of the process.
--   * reply.c: Reply. signals.c and `server_handle_signal`: Signals. The sending half of state.c: State.
--   * auth.c: Auth, and Auth/Match for who is let in.
--   * core.c: Core/Info, Core/Files, Core/Data, the handlers, and Core/Restart about REST; Transfer,
--     `transfer_file` and `store_file` with throttle.c, Core/Retrieve about what a client receives,
--     and Core/Store about what it stores.
--     stream.c: Stream, `splice_stream` and `sendall`, and Stream/Sendall. ls.c: Ls.
--   * command.c: Command/Pool, the pool and its growth, Command/Lookup, its sort and its search, and
--     Command/Run/Table, the table of core.c, `pre_command` and `do_cmd`.
--   * server.c: Command/Run/Serve, `new_session`, the loop of `ftp_main` and `destroy_session`, and
--     Command/Run/Quit; Server/Poll, `read_poll`; Server/Buffer, `read_cmd`, `parse_cmd` and `remove_cmd`;
--     Server/Listen, `pasv_listen`.
--   * child.c: Master/Children. daemon.c and the receiving half of state.c: Master/Daemon; Master/Table,
--     Master/Entries, Master/Limit, Master/Follows and Master/Quit are about them. `init_masterserver` is in
--     Start/Listener.
--   * main.c: Start/Main, `parse_args` and the steps of `main` around the loop. log.c: Start/Log.
--   * config.c: Config/Settings, the table and the defaults; Config/Parse; Config/Check, `check_config` and
--     `load_config`.
--   * Safety: the invariant of a session before and after its login, through every handler, and in
--     Safety/Descriptors which descriptors a command leaves open. These are read off the trace, in
--     Machine/Descriptors, and Core/Descriptors goes through the handlers.
--
-- How code is read: a piece of code is a function of the environment and the machine (Machine/Monad). It
-- ends with a value, in a crash (a failed assertion, a read through NULL), or it is still waiting. The
-- environment answers each call to the system by a function of all calls made so far, so a statement
-- over all environments is one over all behaviours of the kernel, the file system, the client and the
-- account database. Each call is an event of the trace, newest first. An int or size_t of the source is
-- a natural number where it cannot be negative; -1 is `none`.
--
-- Fuel: `walk` of `vfs_realpath` takes a round for each byte of the path, and one more; `find_year` takes
-- a round for each day; the loop of the command buffer takes one for each byte that arrives, and one
-- more; the search takes one for each entry of the pool. The theorems on these functions show that
-- this is enough. Loops that wait for the outside (a splice that is interrupted again and again, a
-- directory without end) are followed for as many rounds as the environment has patience, and the
-- invariants hold at each of them.
--
-- A loop over the ports of a range takes a round for each of them. `sendall` waits for the client, and is
-- shown to return where each `send` takes a byte and the patience reaches the length of its buffer.
--
-- Where the source keeps a long in an int, or an off_t in an int, the value is cut by `to_int`
-- (Prelude/Integers); a time may be before 1970. The pointer `login.user`, which `new_session` does not
-- set, is a `CharPtr`: to read or to free it while it is undefined is a crash, and the theorems that
-- exclude a crash ask that it has a value. A read behind the mapped configuration file is a crash where
-- the mapping ends at the end of a page.
--
-- Not modelled: the texts of messages before printf has formatted them; what getopt does with the
-- arguments; and, of a reply, the single calls of `send`. The command line of the session is held as
-- two strings, so that a handler does not see the bytes behind its argument.
pub mod Prelude
pub mod Text
pub mod Vfs
pub mod Machine
pub mod Reply
pub mod Signals
pub mod State
pub mod Stream
pub mod Auth
pub mod Transfer
pub mod Core
pub mod Ls
pub mod Command
pub mod Server
pub mod Master
pub mod Config
pub mod Start
pub mod Safety
mod Tests
