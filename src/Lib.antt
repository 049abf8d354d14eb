-- ===== src/Lib.antt =====
-- cage: a tool that runs a program in a container. This library models the parts of it that
-- compute on data, with theorems on what they compute.
--
-- The program's parts. `core` starts and supervises the container, `cli` reads the command line,
-- `sandbox` sets up mounts, devices and cgroups, `net` the network, `user` the identity of the
-- process, `pkg` loads kernel modules, which are often gzip files read by `compress`; `ext4` writes
-- the empty image that holds the container's files; `util` has buffers, paths, the environment and
-- files.
--
-- The modules.
--   Mem         src/util/mem.c: `Buf` is `buf_t` with its growth and appends, `Paths` is `mem_path`
--               and `mem_path_escapes`.
--   Crc         src/compress/crc32.c and src/ext4/csum.c: the static table is a state that the
--               functions take and return.
--   Compress    src/compress: `BitReader` and `Huffman` are bitread.c, `Inflate` is inflate.c with
--               `Lengths` for the code lengths, `Symbols` for literals and copies and `Block` for
--               the blocks, `Gzip` is decompress.c. A gzip file goes through the header functions
--               of `Gzip`, then block by block through `Inflate` into a `Buf`, and at the end
--               through `Crc`.
--   Ext4        src/ext4/util.c, util.h and a part of sb.c: `Bytes` is the access to words in byte
--               arrays, `Groups` the places of metadata and of backups, `Descriptors` the group
--               descriptors of sb.c, `Checksums` the checksums and extents of util.c,
--               `Superblock` the superblock of sb.c.
--   User        src/user: `Parse` is user_parse.c, `Resolve` is user_resolve.c, `Groups` is user.c. The
--               entries of etc/passwd and etc/group, which the C library reads, are an argument.
--   Vol         src/sandbox/vol.c: the parser of volume specifications, which calls
--               `mem_path_escapes`.
--   Pkg         src/pkg: `Names` compares names of modules and knows the formats (mod_util.h,
--               mod_format.c), `Deps` reads the lines of modules.dep (resolve.c), `Status` the lists of
--               loaded and built-in modules, and `Modprobe` loads a module with its dependencies
--               (modprobe.c, and the cache of resolve.c). `Files` describes the paths of module files
--               without the code, for the theorems on these functions. What they ask of the system is
--               the record `System`; their static buffers are fields of `State`.
--   Cli         src/cli/args.c: the option parser; `Call` is what one call of `getopt_long` returns.
--   Env         src/util/env_map.c: the hash table of variables, whose search `Probe` and `Ends` follow,
--               whose invariant is in `Placed` and whose growth in `Rehash` and `Resize`. `Vars` is
--               src/util/env.c, which fills the table.
--   Proc        src/core/proc.c: `Pidfile` is the name and the content of a pid file, `Proc` itself the
--               signals, `Target` what is done with the process of a pid file, `Namespaces` the making
--               of a pid file and the entering of namespaces. What the functions
--               ask of the kernel is the record `System`; `State` keeps the calls that were made.
--   Net         src/net/netlink.c: attributes and nests in a message, on a machine that stores words
--               with the low byte first; `Rtnl` is the messages of src/net/rtnl.c.
--   Bits        arithmetic facts on the bit operations.
--   Prelude     shared types, tests and list operations.
--   Tests       the theorems at concrete inputs.
--
-- Conventions. A definition has the name of the C function it models. An array is a list of its
-- length; a pointer into an array is the list with an offset. A C integer is a native natural
-- number, with the wrap-around of its width written out where the source can reach it; -1 as a
-- failure is `none`, or `false` where the function returns only 0 or -1. A function that changes
-- what its pointer leads to returns the new value beside its result. The loops of C are recursion
-- on the rounds left. Allocation does not fail: `mem_realloc` ends the program then, and the calls
-- of malloc, calloc, realloc and strdup in src/user and src/util are taken to succeed.
--
-- Bounds and fuel. `br_need` gets `n` rounds for `n` bits, since each adds eight. `run_loop` and
-- `blocks_loop` have no bound in C; they get one round more than there are unread bits, and theorems
-- below say that the result satisfies the equation of the unbounded loop. `decode_len` gets as many
-- rounds as there are entries, `fill_tokens` one more than there are bytes, and the loops over the
-- lines of a file one for each byte. The search in the hash table gets as many rounds as there are
-- slots, and is shown to end, since a slot is always free. `pidwait` gets a number of rounds, and
-- `killpid` is shown to return where one of that many waits is not interrupted. A buffer is below
-- 2^62 bytes, and 2^60 where it grows; the capacity of the hash table times seven fits a size_t. The
-- writer of ext4 has 80 groups.
--
-- Not modelled. `env_set_gui_envs` and the reading of another process's variables; sockets and the
-- loops over the messages of a dump; modload.c; `getopt_long` and the texts of help and version;
-- `open_and_read`; the allocator; the system calls for mounts and files; and the parts named in the
-- first paragraph that have no module here.
pub mod Bits
pub mod Cli
pub mod Compress
pub mod Crc
pub mod Env
pub mod Ext4
pub mod Mem
pub mod Net
pub mod Pkg
pub mod Prelude
pub mod Proc
pub mod Tests
pub mod User
pub mod Vol
