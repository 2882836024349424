-- ===== src/Inotify/Kernel.antt =====
-- What inotify_dtree.c asks of the kernel and of the C library. `K` is the state of all that is
-- outside the process: its directory tree, its inotify instances, its memory.
use linux_programming_interf.Common.{ℕ, Bool, Option, List}
use linux_programming_interf.Common.Int.{ℤ}
use linux_programming_interf.Inotify.Paths.{FilePath}

-- `struct inotify_event`
pub record Event : Type 0 where
  pub wd : ℤ
  pub mask : ℕ
  pub cookie : ℕ
  pub len : ℕ
  pub name : List ℕ

-- A call that nftw() makes of its function: a pathname, and whether `sb->st_mode` is a directory.
pub record Visit : Type 0 where
  pub pathname : FilePath
  pub is_dir : Bool

-- inotify_add_watch(): a watch descriptor, or -1 with `errno`.
pub data AddResult : Type 0 where
  added : ℕ → AddResult
  add_failed : ℕ → AddResult

-- lstat(): -1, a directory, or another kind of file.
pub data LstatResult : Type 0 where
  missing directory other_file : LstatResult

-- read(): a positive number of bytes, which hold whole events; 0; or -1 with `errno`.
pub data ReadResult : Type 0 where
  got : List Event → ReadResult
  end_of_file : ReadResult
  read_failed : ℕ → ReadResult

-- `nftw` gives the visits that a walk makes, in order; its own return value is only logged.
-- `realloc` says whether there is room for a cache of that many slots.
pub record Os (K : Type 0) : Type 0 where
  pub realloc : K → ℕ → Bool × K
  pub inotify_init : K → Option ℕ × K
  pub close : K → ℤ → K
  pub add_watch : K → ℤ → FilePath → ℕ → AddResult × K
  pub rm_watch : K → ℤ → ℤ → Bool × K
  pub nftw : K → FilePath → List Visit × K
  pub lstat : K → FilePath → LstatResult
  pub read : K → ℤ → ReadResult × K
