-- ===== src/Docio/Tests.antt =====
-- Documents in blocks of 48 bytes, in memory.
use forestdb.Common.{[], ℕ, Option, List, ◌+◌, blk_not_found}
use forestdb.FileManager.Interface.{FileOps}
use forestdb.Version.{filemgr_magic_002}
use forestdb.Docio.{Handle}
use forestdb.Docio.Layout.{bytes_of}
use forestdb.Docio.Memory.{Memory, memory}
use forestdb.Docio.Append.{docio_append_doc_raw}
use forestdb.Docio.Read.{Reader}

abbrev file : FileOps
file = memory 48

abbrev version : ℕ
version = filemgr_magic_002

-- Block 5 is the current block; 10 bytes of it are used.
abbrev handle : Handle
handle = record { curblock = 5; curpos = 10; cur_bmp_revnum_hash = 0 }

abbrev start : Memory
start = record { next = 6; content = λ b i. 0 }

abbrev document : List ℕ
document = bytes_of (λ i. i + 1) 0 70

abbrev after : Option ℕ × Handle × Memory
after = docio_append_doc_raw file version 48 handle start 70 document

abbrev reader : Reader
reader = record { lastbid = blk_not_found; last_bmp_revnum = 0; readbuffer = [] }
