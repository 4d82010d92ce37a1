-- ===== src/Lib.antt =====
-- Verification of jevmachopp, a C++ library and tools for Mach-O files and the boot of XNU on Apple
-- ARM machines.
--
-- Parts and files:
--   Ring          include/jevmachopp/RingBuffer.h, a ring buffer in memory that is mapped twice.
--                 Ring.antt has `RingBufferBase` for one producer and one consumer: `emplace` (which
--                 `push` calls), `pop`, `peek`, `size`, `remaining`, `full`, `empty`,
--                 `emplace_multiple`, `finish`, `clear`. Ring/Queue is the queue it promises.
--                 Ring/Cells, Ring/Refine, Ring/Runs and Ring/Bulk have the proofs. Ring/Mapping is the
--                 constructor and the destructor on Linux. Ring/Shared has
--                 the buffer of one producer and several consumers and Ring/Racing that of several
--                 producers, as steps of threads on shared memory.
--   Leb           include/jevmachopp/LEB128.h and lib/jevmachopp/LEB128.cpp: `LEB128Iterator`
--                 (`begin`, `next` for ++, `prev` for --) and `DecodeUleb128Backwards`. Function
--                 starts of a Mach-O file are such a range. Leb/Back, Leb/Walk, Leb/Reverse and
--                 Leb/Values have the proofs.
--   AddrRange     include/jevmachopp/CommonTypes.h: `AddrRange`; `join` is operator|=, `shift_down`
--                 operator-=.
--   Version       lib/jevmachopp/Version.cpp: `Version`, and in Version/SourceVersion `SourceVersion`.
--   Numerics      include/jevmachopp/Common.h: `gcd`, `lcm`, `is_pow2`, `roundup_pow2`,
--                 `roundup_pow2_mul`, which fix the size of a ring buffer.
--   Arm64         lib/jevmachopp/ARM64Disasm.cpp: branches and wide moves, which the search for calls
--                 reads.
--   Hex           include/jevmachopp/Hex.h and lib/jevmachopp/Hex.cpp: hexadecimal digits and `sv2int`,
--                 which the tools parse their arguments with.
--   Nvram         lib/jevmachopp/NVRAM.cpp: `varName`, `varValue`, `decodedDataLen`,
--                 `escapeDataToData` and `unescapeBytesToData`. Nvram/Coding says what the escape coding is.
--                 Nvram/Partition has the headers of partitions, `varNamed`, `extractProxyData` and the
--                 boot arguments, which Nvram/BootArgs is about.
--   Text          include/jevmachopp/Common.h and lib/jevmachopp/Common.cpp: helpers on ranges and
--                 strings. Text/Splitting says what is relied on of `stringSplitViewDelimitedBy`, and
--                 Text/SplitAt has a function that does it.
--   CStr          include/jevmachopp/DelimitedCStr.h and include/jevmachopp/PackedCStr.h: the iterators
--                 over the parts of a string and over strings in memory.
--   Memory        loads, stores and C strings in memory; Memory/Reads and Memory/Place have what bytes
--                 at an offset mean for them.
--   DeviceTree    include/jevmachopp/DeviceTree.h and lib/jevmachopp/DeviceTree.cpp: `DTProp` and the
--                 iterators; DeviceTree/Node has `DTNode`, `lookupNode` and `lookupProperty`,
--                 DeviceTree/Patch `processPatch` and `processPatches`, which read the patches from
--                 NVRAM. DeviceTree/Image is a tree and its bytes, for the proofs.
--   Apfs          lib/jevmachopp/UBootAPFS.cpp: `APFSPath` and `APFSNode`; Apfs/Lookup has `lookup`,
--                 `list` and `lookupDir`, Apfs/Stream `apfs_opendir` and `apfs_readdir`, Apfs/Ctx
--                 `APFSCtx`, which opens a device also by its name, `apfs_probe` and `apfs_close`.
--   MachO         include/jevmachopp/MachO.h, lib/jevmachopp/MachO.cpp: the walk along load commands;
--                 MachO/Commands has segments and sections, MachO/Symbols the symbol tables,
--                 MachO/Indirect the search among indirect symbols, and
--                 LoadCommandType the types of commands. MachO/SubCommand has the kinds of
--                 commands, MachO/Names the maps of names of segments, sections and dylibs, and
--                 MachO/FunctionStarts the search in function starts, over the iterators of `view::psum`,
--                 with its proofs in MachO/FunctionStarts/Sums and MachO/FunctionStarts/Search;
--                 MachO/Starts has these starts as offsets and as addresses.
--   CallFinder    lib/jevmachopp/CallFinder.cpp: `findCallsTo`, which looks a symbol up among the
--                 indirect ones, and then through the text for calls of its stub; CallFinder/Scan is about
--                 the loop, and CallFinder/Moves about the search for a write.
--   XnuBoot       lib/jevmachopp/m1n1.cpp: `flush_i_and_d_cache` and `xnu_jump_stub`.
--                 XnuBoot/Prepare has `load_and_prep_xnu_kernelcache` of lib/jevmachopp/XNUBoot.cpp, by
--                 its stages, and XnuBoot/Regions its loops over the memory map of the device tree. It
--                 reads the boot arguments, the tree, NVRAM and the kernel's Mach-O file, all in one
--                 memory, and leaves what the stub is called with. XnuBoot/Copied is about its copies
--                 behind the kernel.
--   SearchFs      lib/jevmachopp/SearchFS.cpp: `files_larger_than`, the loop of calls of `searchfs`.
--   Slurp         lib/jevmachopp/Slurp.cpp: `readfile`, `writefile`, `mapMemory`.
--   Syscalls      lib/jevmachopp/MuslSyscalls.cpp: `SYS_IMP_writev`, `posix_memalign` and the calls
--                 that do nothing, for programs without a kernel under them.
--   Csr           include/jevmachopp/CSR.h: the flags of system integrity protection.
--   Base          shared tests on numbers, lists, bits, and `Outcome`: a call returns, fails an
--                 `assert`, or accesses memory outside of its buffer.
--   */Tests       small runs.
--
-- Machine integers are natural numbers with the wrap-around written out. `std::size_t` has 64 bits. A
-- pointer to nothing is `none`. A shift or a difference of pointers that is undefined ends as an access
-- outside of memory does.
--
-- Ring buffer: `static_size_raw` is 2 ^ k, as the `static_assert` of the source wants, and is at most
-- 2 ^ 63. The physical cells are a function of the index modulo 2 ^ k; the indices of the two mappings
-- are those below 2 * 2 ^ k. The raw indices never wrap in 2 ^ 64 accesses; results about runs say so.
-- What the system calls of the constructor give in each of its 16 tries is a parameter. In the shared
-- buffers each access to memory is one step, and memory is sequentially consistent.
--
-- LEB128: the forward decoder `bfs::DecodeUleb128` is a library of its own, and a parameter here; the
-- hypothesis `Decodes` says that it reads a number of at most 9 bytes whole. The loop over a range has
-- one round of fuel more than the range has bytes, and the search in function starts has two. `gcd` has one round more than its second argument.
--
-- NVRAM: the loop of `escapeDataToData` has a round of fuel for each byte of the data; each round takes
-- one byte or more. That of `unescapeBytesToData` has one for each byte of the destination, as each
-- round raises the index that it ends by.
--
-- Memory, device tree, NVRAM partitions and Mach-O: memory is the list of its bytes and a pointer is an
-- offset, which does not wrap. The iterators of a device tree have a step of fuel more than the count
-- that they end by, and `node_sizeof` has fuel for its depth. The walk along load commands has a step
-- of fuel more than there are bytes of them, and the walk along variables one more than memory has
-- bytes: a step takes a byte or more. A command of size 0, on which the code does not end, runs out of
-- fuel.
--
-- APFS: ApfsLib, with what it answers about volumes, names and directories, and the block devices are
-- parameters. So is the splitting of strings of nanorange; the hypothesis `Splits` says that it takes
-- apart what delimiters join.
--
-- Boot and calls: `xnu_jump_stub` has a round of fuel more than memory has bytes, and a round takes 16
-- bytes; a cache line takes a byte or more of those that are left. A filtered range of properties has a
-- step of fuel more than its node has properties, and the search for the end of the stub one more than
-- memory has bytes. What `snprintf` writes for `%d` is a parameter, as are `emplace_back` of a static
-- vector, the address of the stub, `stoi`, and the partition table of a device.
--
-- Search and system calls: what `searchfs`, `fsgetpath`, `olibc2uboot_write` and `memalign` give, and
-- the numbers of `EAGAIN` and `EBUSY`, are parameters; fuel counts the calls of `searchfs`, and a search
-- without fuel is one that goes on. Each task of a thread pool is one that is submitted.
--
-- Not modelled: formatting, and the tools, which are input and output; the Apple branch of the
-- constructor of the ring buffer; fat files, which are only formatted; of APFS, the calls
-- that only fail and the demonstration; start-up code, and the stand-ins of another C library.
pub mod Base
pub mod Ring
pub mod Leb
pub mod AddrRange
pub mod Version
pub mod SearchFs
pub mod Slurp
pub mod Syscalls
pub mod XnuBoot
pub mod CallFinder
pub mod Numerics
pub mod Arm64
pub mod Hex
pub mod Nvram
pub mod Text
pub mod Apfs
pub mod Csr
pub mod DeviceTree
pub mod Memory
pub mod CStr
pub mod LoadCommandType
pub mod MachO
