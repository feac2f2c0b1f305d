-- ===== src/Storage/HardState/Files.antt =====
-- What src/raft_hard_state_store.cpp, as it is built for POSIX, asks of the file system: the calls are
-- parameters, each of which may fail, on a disk whose one file and its temporary file can be observed.
-- A call that a signal interrupts is made again, so each stands for the last one.
use kura_metadata_store.Prelude.{ℕ, Option, some, List, ◌≡◌, ◌⊎◌, ◌++◌, [], take}
use kura_metadata_store.Prelude.Exception.{Exception}

-- How a call of the file system, or of the fault hook, ends.
pub data Outcome : Type 0 where
  done : Outcome
  failed : Exception → Outcome

-- How `write` ends: it has taken so many bytes, or it failed.
pub data WriteReturn : Type 0 where
  wrote : ℕ → WriteReturn
  refused : Exception → WriteReturn

-- How the opening and the `fsync` of a directory end. `unsupported`: with EINVAL or ENOTSUP.
pub data DirectoryReturn : Type 0 where
  synchronized unsupported : DirectoryReturn
  unsynchronized : Exception → DirectoryReturn

-- What the store asks of the file system. `D` is a disk. `final` and `temporary` are what a program
-- reads there, `found` is what a restart may find in the final file, also after a power failure, and
-- `staged` is what the medium may hold of the temporary file.
pub record FileSystem (D : Type 0) : Type 1 where
  pub final : D → Option (List ℕ)
  pub temporary : D → Option (List ℕ)
  pub found : D → Option (List ℕ) → Type 0
  pub staged : D → List ℕ → Type 0
  pub create_directories : D → D × Outcome
  pub inspect : D → Outcome
  pub read : D → Outcome
  pub create_new : D → D × Outcome
  pub write : List ℕ → D → D × WriteReturn
  pub fsync : D → D × Outcome
  pub close : D → D × Outcome
  pub rename : D → D × Outcome
  pub fsync_directory : D → D × DirectoryReturn
  pub remove_temporary : D → D

-- Its documented behaviour. A restart may find what a program reads. `write` appends the bytes that it has taken; `fsync` brings the contents
-- of the file to the medium; `rename` is atomic: while it runs, whether or not it fails, the new name
-- stands for the old file or the renamed one; `fsync` of a directory brings its names to the medium.
-- No other call touches the final file.
pub record IsFileSystem {D : Type 0} (fs : FileSystem D) : Type 0 where
  pub final-found : (d : D) → fs.found d (fs.final d)
  pub create_new-found :
      (d : D) (c : Option (List ℕ)) → fs.found (fs.create_new d).0 c → fs.found d c
  pub create_new-empty :
      (d : D) → (fs.create_new d).1 ≡ done → fs.temporary (fs.create_new d).0 ≡ some []
  pub write-found :
      (bytes : List ℕ) (d : D) (c : Option (List ℕ))
      → fs.found (fs.write bytes d).0 c
      → fs.found d c
  pub write-appends :
      (bytes before : List ℕ) (d : D) (count : ℕ)
      → fs.temporary d ≡ some before
      → (fs.write bytes d).1 ≡ wrote count
      → fs.temporary (fs.write bytes d).0 ≡ some (before ++ take count bytes)
  pub fsync-found : (d : D) (c : Option (List ℕ)) → fs.found (fs.fsync d).0 c → fs.found d c
  pub fsync-temporary : (d : D) → fs.temporary (fs.fsync d).0 ≡ fs.temporary d
  pub fsync-staged :
      (d : D) (bytes t : List ℕ)
      → fs.temporary d ≡ some bytes
      → (fs.fsync d).1 ≡ done
      → fs.staged (fs.fsync d).0 t
      → t ≡ bytes
  pub close-found : (d : D) (c : Option (List ℕ)) → fs.found (fs.close d).0 c → fs.found d c
  pub close-temporary : (d : D) → fs.temporary (fs.close d).0 ≡ fs.temporary d
  pub close-staged : (d : D) (t : List ℕ) → fs.staged (fs.close d).0 t → fs.staged d t
  pub rename-found :
      (d : D) (c : Option (List ℕ))
      → fs.found (fs.rename d).0 c
      → fs.found d c ⊎ ((t : List ℕ) × fs.staged d t × (c ≡ some t))
  pub rename-final : (d : D) → (fs.rename d).1 ≡ done → fs.final (fs.rename d).0 ≡ fs.temporary d
  pub fsync_directory-found :
      (d : D) (c : Option (List ℕ)) → fs.found (fs.fsync_directory d).0 c → fs.found d c
  pub fsync_directory-names :
      (d : D) (c : Option (List ℕ))
      → (fs.fsync_directory d).1 ≡ synchronized
      → fs.found (fs.fsync_directory d).0 c
      → c ≡ fs.final d
  pub remove_temporary-found :
      (d : D) (c : Option (List ℕ)) → fs.found (fs.remove_temporary d) c → fs.found d c
