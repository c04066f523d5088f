-- ===== src/Docio/RoundTrip.antt =====
-- What `docio_append_doc_raw` appended is read back by `_docio_read_doc_component`.
use forestdb.Common.{ℕ, ◌≡◌, List, ◌/◌, ◌%◌}
use forestdb.Common.Bytes.{slice}
use forestdb.FileManager.Interface.{FileOps}
use forestdb.Docio.Read.{Reader, ReadStatus, done, corrupted, read_error}
use forestdb.Docio.Read.Blocks.{ReadFails, InFile}

-- What a read of the document at `offset` gives.
abbrev pub ReadsBack :
    (F : FileOps) → ℕ → F.State → ℕ → ℕ → List ℕ → ReadStatus × List ℕ × Reader → Type 0
ReadsBack F real_blocksize s offset size buf (done at, bytes, r) = bytes ≡ slice buf 0 size
ReadsBack F real_blocksize s offset size buf (corrupted, bytes, r) =
    ¬ InFile F real_blocksize s (offset / real_blocksize) (offset % real_blocksize) size
ReadsBack F real_blocksize s offset size buf (read_error, bytes, r) = ReadFails F s
