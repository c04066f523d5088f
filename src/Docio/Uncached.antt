-- ===== src/Docio/Uncached.antt =====
-- Documents of src/docio.cc over the file manager of src/filemgr.cc with the block cache disabled.
use forestdb.Common.{ℕ, List, Option, Bool, ◌<◌, ◌≤◌, ◌≡◌, ◌^◌, true}
use forestdb.FileManager.Stale.{docblk_meta_size}
use forestdb.FileManager.Offset.Laws.{File, IsPosix, uncached, uncached-IsLawful}
use forestdb.Version.{ver_non_consecutive_doc}
use forestdb.Docio.{Handle, blocksize}
use forestdb.Docio.Append.{ready, docio_append_doc_raw}
use forestdb.Docio.Append.Stores.{Appends}
use forestdb.Docio.Append.Linked.{AllocatesFresh, docio_append_doc_raw-Appends}

module _ (real_blocksize : ℕ) (get_checksum : List ℕ → ℕ → ℕ)
    (pread : (ℕ → List ℕ) → ℕ → Option (List ℕ))
    (pwrite : (ℕ → List ℕ) → ℕ → ℕ → List ℕ → Bool × (ℕ → List ℕ))
    (P : IsPosix real_blocksize pread pwrite) where
  -- The document is stored by the writes of the operating system.
  docio_append_doc_raw-uncached :
      (version : ℕ)
      → ver_non_consecutive_doc version ≡ true
      → docblk_meta_size < real_blocksize
      → real_blocksize < 2 ^ 32
      → (h : Handle) (s : File) (size : ℕ) (buf : List ℕ) → size < 2 ^ 32
      → h.curpos ≤ blocksize version real_blocksize
      → (let F = uncached real_blocksize get_checksum pread pwrite in
          AllocatesFresh F version real_blocksize
            (ready F version real_blocksize h s).1
            (ready F version real_blocksize h s).0.curblock
            size
          → Appends F s real_blocksize size buf
              (docio_append_doc_raw F version real_blocksize h s size buf))
  docio_append_doc_raw-uncached version new large word h s size buf small room fresh =
      docio_append_doc_raw-Appends (uncached real_blocksize get_checksum pread pwrite) version
        real_blocksize (uncached-IsLawful real_blocksize get_checksum pread pwrite P) new large word
        h s size buf small room fresh
