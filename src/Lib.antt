-- ===== src/Lib.antt =====
-- A verification library of the network programming code: the author's own programs (my-src) and the
-- book's sources that they follow (origin-src/unpv13e).
--
-- The kernel is no code of the repository: what read, write, recvfrom, poll and select hand back is an
-- argument of the models, with the documented contract of each call as a named hypothesis.
--
-- - Stream: my-src/Chapter-03/readn.c and writen.c, and of origin-src/unpv13e
--   lib/readline.c and server/readline_r.c. Stream.Kernel has
--   the interface of a stream socket and its laws. The loops take fuel; a call ends within the bytes
--   wanted and the signals to come, since each round moves a byte or uses up a signal.
-- - Sigio: origin-src/unpv13e/sigio/dgecho01.c. Sigio.Queue has the ring and sig_io, Sigio.Steps the main
--   loop of dg_echo as a step relation with the handler. sig_hup only prints and is not modelled.
-- - Nonblock: origin-src/unpv13e/nonblock/strclinonb.c, a round of str_cli in the stages of the source.
-- - Nonblock.Web: origin-src/unpv13e/nonblock/web.c, start_connect.c and write_get_cmd.c, the rounds of both
--   loops of main.
-- - Tcpserv: my-src/Chapter-06/tcpsrvpoll01.c (Poll) and origin-src/unpv13e/tcpcliserv/tcpservselect01.c
--   (Select), a round of each main.
-- - Rtt: origin-src/unpv13e/lib/rtt.c over floating-point operations that are a parameter (Rtt.Float);
--   Rtt.Exchange: origin-src/unpv13e/rtt/dg_send_recv.c over a list of what ends each wait.
-- - Prefork: origin-src/unpv13e/server/serv05.c (a round of the parent) and child05.c (the child's
--   steps between the rounds).
-- - Urgent: my-src/Chapter-24/tcp_urg_select_receiver.c and tcp_urg_select_receiver2.c.
-- - Strcli: my-src/Chapter-06/strcliselect02.c.
-- - Tcpconn: my-src/Chapter-11/tcp_connect.c and tcp_listen.c.
-- - Sctp: my-src/Chapter-23/sctp_pdapi_rcv.c.
-- - Cksum: origin-src/unpv13e/libfree/in_cksum.c, over bytes in memory and the byte order of the host.
-- - Web: origin-src/unpv13e/threads/web03.c, the steps of main and of do_get_read. What a thread does in
--   the mutex is one step, taken while main does not have it; its traffic is one step as well.
-- - Gai: origin-src/unpv13e/libgai. Gai.Search has ga_echeck, ga_nsearch, ga_aistruct and the loop of
--   getaddrinfo over the searches, Gai.Ports ga_serv, ga_port and ga_clone, Gai.Lookup getaddrinfo and
--   ga_unix, Gai.Names getnameinfo and gn_ipv46. The state of the calls is the number of allocations that
--   still succeed; the resolver is a record of functions.
-- - Pool: origin-src/unpv13e/server/serv08.c, pthread08.c and pthread08.h. A thread's section under
--   the mutex and its count is one step, and main's section is one; Pthread_cond_wait may also return
--   without a signal.
-- - Sock: origin-src/unpv13e/sock/crlf.c, loop.c and pattern.c. The rounds of the loop take what the
--   kernel answers; `pattern` takes fuel for its inner loop, and 34 turns are enough.
-- - Icmpd: origin-src/unpv13e/icmpd. Icmpd.Packet has what readable_v4 reads out of the datagram, Icmpd
--   the table of clients, the handlers and the rounds of main, without IPv6; a set has no bound at
--   FD_SETSIZE.
-- - Lines: the loop of my-src/Chapter-30/web_child.c over the readline and writen of Stream, for any
--   function from a line to its answer; Lines.Requests has that of web_child, with atol, and a turn of
--   client.c. The bytes of `result` and the kernel are parameters; one round more than the bytes sent is
--   enough.
--   Lines.Echo: str_echo of my-src/Chapter-05/str_echo.c.
-- - Udp: my-src/Chapter-08/dgcliaddr.c and dg_echo.c, over the lines of the input and the datagrams that
--   come.
-- - Ping: of origin-src/unpv13e ping/send_v4.c, ping/proc_v4.c and lib/tv_sub.c, in the bytes of the
--   packets and with longs of 64 bits; the byte order and the checksum are those of Cksum.
-- - Talk: my-src/Chapter-05/str_cli.c, over a list of the lines that Fgets gives; Talk.Whole has it and
--   str_echo on the two ends of a connection.
-- - Forking: my-src/Chapter-30/Paradigm-1/server.c and sig_chld.c (my-src/Chapter-05/tcpsrv04.c and
--   sigchld.c have the same loops): the steps of the parent, the children and the handler of SIGCHLD.
-- - Trace: origin-src/unpv13e/traceroute/recv_v4.c. A read of recvbuf outside the packet received is an
--   outcome of its own.
--
-- The parts do not call each other, with these exceptions: Rtt.Exchange uses the estimator of Rtt, Lines
-- and Talk the calls of Stream, Talk.Whole joins Talk to Lines.Echo, Ping uses Cksum, and Udp the strings
-- of Talk. What they share is in Prelude: tests into Bool, fd_set, numbers as text, and lemmas on lists
-- over the native numbers.
--
-- Numbers are natural numbers, an fd of -1 is `none`. Socket set-up, printing and argument handling are
-- not modelled. Loops that never end are modelled by one round and what every
-- round keeps, or as a step relation where processes interleave.
pub mod Prelude
pub mod Stream
pub mod Sigio
pub mod Sock
pub mod Nonblock
pub mod Tcpserv
pub mod Rtt
pub mod Prefork
pub mod Forking
pub mod Talk
pub mod Lines
pub mod Ping
pub mod Pool
pub mod Icmpd
pub mod Trace
pub mod Udp
pub mod Urgent
pub mod Strcli
pub mod Tcpconn
pub mod Sctp
pub mod Cksum
pub mod Web
pub mod Gai
