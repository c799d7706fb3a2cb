-- ===== src/Lib.antt =====
-- A model of the core of nget, a command line fetcher for usenet news: the set of article numbers
-- that it keeps for a group (nrange.h, nrange.cc) and the cache of the headers that it has seen
-- (cache.h, cache.cc), with its cache files and the readers around them (etree.cc, argparser.cc,
-- strtoker.cc, buffy.h, path.cc), the list of the groups (grouplist.cc), the connections to the
-- servers (sockpool.cc, server.cc, server.h) and the choice of the PAR files to fetch (par.cc, par.h,
-- knapsack.cc).
--
-- nget asks a server for the headers of the articles whose numbers the cache lacks (getxrange),
-- puts each header into the cache as an article of a part of a file (additem), drops the articles
-- that the server has expired (flush, flushlow), and remembers the message ids that it has
-- fetched (c_mid_info). It keeps the caches and the list of the groups in files, a line for each
-- record with tabs between its fields. Connections stay open in a pool, and a server that fails is
-- kept out for a time. Files that can repair others are not fetched at once: they are noted by the
-- path that they belong to (ParHandler), and after each run of retrievals as many of them are added
-- as the files on the disk need (maybe_get_pxxs).
--
-- Prelude: the shared names, and the numbers of the machine: Ulong is unsigned long of 64 bits
--   with its wrap-around, Int the int of C without overflow, Bytes the std::string with its
--   comparison as a list of character codes.
-- Nrange: class c_nrange of nrange.h and nrange.cc. The std::map from high to low is a list of
--   entries in the order of the keys. Children prove what each operation does to the set of
--   numbers: Members, Insert, InsertRange, Remove, Total, Invert, Trimming.
-- Cache: the classes of cache.h that hold headers. A pointer that owns its object is the object,
--   since the code shares none of them; a vector is a list; a multimap is a list in the order of
--   its keys, equal keys in the order in which they came.
--   Cache/Order is operator< and operator== of c_nntp_file_base; Cache/Parts is
--   c_nntp_file_parts; Cache/Additem is c_nntp_cache::additem; Cache/Flush is flush and flushlow;
--   Cache/Merge is c_nntp_file::mergefile; Cache/HaveMap is its get_server_have_map;
--   Cache/Missing is getxrange; Cache/MidInfo is c_mid_info and meta_mid_info, with the lines of its
--   file.
--   Cache/Subject is c_nntp_header::set and parsepnum, which cuts its numbers to 32 bits. A char* into
--   the subject is the text before it, turned around, and the text from it on.
--   Cache/Writer is the destructor of c_nntp_cache, Cache/Reader is read_file of
--   c_nntp_cache_reader, and Cache/Load the two constructors around it: they work on the lines of a
--   cache file. nconfig.hasserver and the group are parameters.
-- Decimal: what the program takes from the C library to print and to read numbers.
-- Buffy: buffy.h. CharBuffer is the class of this name; Ring is the ring of c_buffy, over a source
--   that stands for bfill, and Stream sees it as the stream of the bytes that are still to
--   come; bgets and btoks are given on such a stream.
-- Grouplist: grouplist.cc. Descriptions and Flushing are about its changes; File, Saving and
--   Loading read and write its lines.
-- Server: the penalties of server.cc and server.h. The float multiplier is a function.
-- Sockpool: sockpool.cc. A server is named by its place among the servers; whether a connection is
--   still open after its input is read, whether a new one can be made, and whether the QUIT of one can
--   be written, are arguments.
-- Etree: make_pred of etree.cc, which reads the expressions of -R and of the group list with the
-- help of Argparser: parseargs of argparser.cc.
-- Strtoker: strtoker.cc, which cuts the lines of the cache files and of the server's answers.
-- Knapsack: knapsack.cc, which chooses the PAR2 volumes to fetch. Its table is in Knapsack itself;
--   Chosen has the walk back that names the items, and knapsack_minsize.
-- Par: par.h and par.cc. Sets is ParSetInfo, Info is where a file is noted, Pxxs is
--   Par1Info::get_pxxs, Packets and Extra are get_recoverypackets and get_extradata of Par2Info,
--   Run and Run2 are the two maybe_get_pxxs, Local is LocalParFiles, Handler is ParInfo and
--   ParHandler. A multimap is a list in the order of its keys, an iterator a place in it. What is
--   read from the disk is an argument: the par files of a path, whether they are good, what the
--   repairer says; and so are the sizes of a file on its best server and the expressions for
--   subjects, which give the submatches of a text. Lists of files are compared by what
--   they weigh, whatever a file weighs.
-- Paths: the joining and splitting of path names in path.cc, where the separator is '/'.
--
-- Bounds and fuel: article numbers and counters are unsigned longs, and the sums and differences
-- of the code wrap around at 2 ^ 64. The int fields (req, have, partnum) are integers without
-- overflow, and so are the times. The halving search of Cache/Parts is given as fuel the length of
-- what is left to search, which shrinks at every step. A number is printed with itself and one
-- more as fuel, since each digit divides it by ten. The loops of the constructors over the files
-- of a cache and the groups of a list have one more than the lines as fuel, since each pass uses
-- up a line. The walk back of knapsack has the items as fuel, since it uses an entry only below
-- the one before it and so makes no more rounds than there are items. The tokens at commas and at
-- spaces have one more than the length of the text. Every other loop is a recursion on the list
-- that it walks through. The clock is an argument `now` of each operation that reads it.
--
-- Not modelled: socket calls, the protocol (prot_nntp.cc), the opening, locking and renaming of
-- files, the terminal and the log, configuration, the decoders (uulib is a library), the reading
-- of PAR files (the rest of par.cc), the copy of par2cmdline in par2, and the copies of libc
-- functions in compat; the messages that the modelled functions print, and their assertions, but
-- for those of expire_old_connection, of knapsack and of read_file, where a failure is no result.
pub mod Prelude
pub mod Nrange
pub mod Cache
pub mod Etree
pub mod Argparser
pub mod Strtoker
pub mod Paths
pub mod Knapsack
pub mod Decimal
pub mod Buffy
pub mod Grouplist
pub mod Server
pub mod Sockpool
pub mod Par
