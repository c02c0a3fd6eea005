-- ===== src/Lib.antt =====
-- A library of proofs about the C code of recycle_bin, a collection of small programs and of the parts
-- that larger ones are built from.
--
-- Values. Memory is a list of bytes (natural numbers), and a pointer into an object is what the object
-- holds from there on, or an index into it. A read or a write outside the object, a failed `assert`, and
-- whatever else has no meaning in C is the result `fault` of `Run` (Prelude/Runs.antt). A `char` is
-- signed with 8 bits, an `int` has 32; `schar`, `uchar`, `signed32` (Prelude/Int.antt) convert. What
-- `malloc` returns, or whether it succeeds, is an argument of the function that calls it. A definition
-- bears the name of the function, the type or the loop of the function that it models.
--
-- Parts, which do not call each other in the repository but for what is said here:
--   HoString   libc/ho_string, the string and memory functions: Scan (strlen, strchr, memchr; Scan/Last:
--              strrchr), Compare, Span with Span/Sets and Span/Search (strspn, strcspn, strpbrk, strstr),
--              Copy, with Copy/Appends for strcat and strncat
--   MiniAnt    the crawler mini_ant/src. Its containers: ant_queue.c (Queue) on an explicit heap; ant_hash.c
--              (Hash), whose table calls the hash function and the test of keys that it was given, with
--              Hash/Bucket for tables that cannot hash all keys; ant_array.c (Array); ant_url.c (Url, Domain);
--              ant_page.c (Page). Its network: ant_socket.c (Sock) over the record Net of system calls; ant_dns.c (Dns: Query for
--              questions, Reply for answers, Transfer for the sockets and the search for a server, with
--              Names, Answers and Question for their layout); ant_http.c (Http: the lines of a header, Head,
--              Body, Name for file names, with Framing and Lines). The crawler itself: mini_ant.c,
--              ant_context.c and process_cache_dns (Crawl: Add for url_add, Filter for filter_add and
--              file_extract_url, Release for process_cache_dns). It puts downloads into queues of Queue
--              that are values of a table of Hash; Crawl/Held says what this state stands for, and
--              Crawl/Adds, Keeps, Releases and Flow follow a download through it
--              Its two threads, over Poll, the calls of epoll: ant_dns.c's thread_dns_main (Resolver, with
--              Sends for the questions of a turn) and mini_ant.c's http_event_loop (Loop: connections; Read: a
--              response and its dump; Turn: the loop; Start: its configuration and the URLs that it knows; Opens
--              and Starts: the downloads that a turn starts). Array/Elements and Array/Growth are about ant_array.c
--   Server     http_server/src/tor_http.c and list_dir of mini_tor.c: the lines of a request (Head, with Lines),
--              the answer (Answer) and the names of files in it (Paths). mini_tor.c's do_loop (Serve), over the
--              record Site of what it asks of the system: the connections that it accepts (Accepts, with Pointers
--              for the array of contexts) and a request that comes in parts (Requests)
--   Nids       use_libnids/parse_smtp_clent.c: mails of a connection, in a queue of a table (Dump)
--   Buffers    mini_ant/src/ant_buf.c (AntBuf), and add_buf of corecode/ant_string.c with mem_read and
--              mem_write of corecode/ho_mem.c (Mem), with the allocators as parameters
--   Corecode   corecode/ho_getopt_long.c (Options), ho_read_conf.c (Conf), and of ant_string.c the
--              conversions (Dump) and the tests of memory (Zero); the callbacks of options and of
--              entries are values of them
--   Match      char_engine/str_match.c: its bit set (Bits), its scans (Scan), its directives (Format)
--   Pool       processpool/src/processpool.c: the transfers on a socket (Channel), the pool, its creation
--              and its tasks (Process). The system calls are the records Io and Proc of functions of a
--              system's state, which are parameters
--   Small      GAS/int2str.c and str2int.c (Digits), leetcode (Leetcode), test_hash (Hashes), del_str.c,
--              del_str_all.c, rev_str.c and change.c (Strings), str_del.c (Deletes, with
--              Ends), programming_in_go/stack/1_2.c (Stacks),
--              libs/ho_trim.c, libc/ho_string/ho_strtok.c on the spans of HoString, and
--              http_server/src/tor_string.c (Words)
--
-- Loops over memory are recursions on it, and counted loops on the count, so no fuel is needed there. The loops
-- that wait for the system (Pool/Channel.antt), the loops over a format (Match/Format.antt), over a line
-- (Corecode/Conf.antt), over two version numbers (Small/Leetcode.antt), over deletions (Small/Strings.antt,
-- Small/Deletes.antt), over sockets (MiniAnt/Sock.antt, MiniAnt/Http/Body.antt), of epoll
-- (MiniAnt/Resolver.antt, MiniAnt/Loop/Turn.antt, Server/Serve.antt: so many turns), over connections that wait
-- (Server/Serve.antt), a header (MiniAnt/Http/Head.antt, Server/Head.antt) and file names
-- (MiniAnt/Http/Name.antt) take fuel, one unit for a turn, and give `none` or `spent` without it; a theorem that
-- the code returns says how much is enough. The loops of ant_itoa and int2str count the room that is left in
-- their buffer instead.
--
-- Not modelled: the programs on threads and sockets (thread, corecode/ant_socket.c), the set-up of libnids,
-- read_config of mini_tor.c, which reads a pointer without a value, what only prints, logs or gives memory back,
-- floating point (ant_atod, JumpConsistentHash), datrie and reverse_words.c, which do not compile, ant_look.c,
-- which is a copy from the file utility, the programs in Go and assembly. The mutexes of the crawler are left
-- out: a function of it is one step. The loop over the connections takes filter_add as its argument `add`, since
-- the keys that filter_add stores are pointers into arrays of that loop; Crawl/Filter models filter_add with the
-- array of file_extract_url. The macros of ds and libs/ho_getline.c are not modelled either.
mod Prelude
pub mod HoString
pub mod MiniAnt
pub mod Nids
pub mod Server
pub mod Small
pub mod Corecode
pub mod Match
pub mod Pool
pub mod Buffers
