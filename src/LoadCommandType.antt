-- ===== src/LoadCommandType.antt =====
-- include/jevmachopp/LoadCommandType.h: the types of load commands that the library names. A type
-- that dyld must know has the bit `JEV_LC_REQ_DYLD`, 0x80000000.
use jevmachopp.Base.{ℕ}

abbrev pub symtab : ℕ
symtab = 0x2

abbrev pub unixthread : ℕ
unixthread = 0x5

abbrev pub dysymtab : ℕ
dysymtab = 0xb

abbrev pub load_dylib : ℕ
load_dylib = 0xc

abbrev pub id_dylib : ℕ
id_dylib = 0xd

abbrev pub load_weak_dylib : ℕ
load_weak_dylib = 0x80000018

abbrev pub segment_64 : ℕ
segment_64 = 0x19

abbrev pub uuid : ℕ
uuid = 0x1b

abbrev pub code_signature : ℕ
code_signature = 0x1d

abbrev pub segment_split_info : ℕ
segment_split_info = 0x1e

abbrev pub reexport_dylib : ℕ
reexport_dylib = 0x8000001f

abbrev pub encryption_info : ℕ
encryption_info = 0x21

abbrev pub function_starts : ℕ
function_starts = 0x26

abbrev pub data_in_code : ℕ
data_in_code = 0x29

abbrev pub source_version : ℕ
source_version = 0x2a

abbrev pub dylib_code_sign_drs : ℕ
dylib_code_sign_drs = 0x2b

abbrev pub linker_optimization_hint : ℕ
linker_optimization_hint = 0x2e

abbrev pub build_version : ℕ
build_version = 0x32

abbrev pub dyld_exports_trie : ℕ
dyld_exports_trie = 0x80000033

abbrev pub dyld_chained_fixups : ℕ
dyld_chained_fixups = 0x80000034

abbrev pub fileset_entry : ℕ
fileset_entry = 0x80000035
