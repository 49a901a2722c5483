-- ===== src/Config/Snapshot.antt =====
-- packages/nacos-config/src/snapshot.ts: snapshots and failover files on disk. The file system
-- (`mz/fs`, `mz-modules`) and `path` are parameters. Every method is its whole body: the calls of
-- the file system in their order, with what `catch` does where one of them fails.
pub mod Atomic
pub mod Interface
use nacos_sdk_nodejs.Prelude.{
  ℕ, suc, Bool, true, false, Option, none, some, Text, Outcome, ok, err, codes, List, [], ◌∷◌, ◌++◌,
  if◌then◌else◌, is_empty,
}

pub record Stat : Type 0 where
  pub is_file : Bool
  pub mtime_ms : ℕ

-- What the source calls of the file system. A call may fail, and a call that fails may have changed
-- the disk.
pub record FileSystem : Type 1 where
  pub Disk : Type 0
  pub FsError : Type 0
  pub exists : Disk → Text → Outcome FsError Bool
  pub read_file : Disk → Text → Outcome FsError Text
  pub stat : Disk → Text → Outcome FsError Stat
  pub is_enoent : FsError → Bool
  pub mkdirp : Disk → Text → Outcome FsError (Unit {0}) × Disk
  pub write_file : Disk → Text → Text → Outcome FsError (Unit {0}) × Disk
  pub rename : Disk → Text → Text → Outcome FsError (Unit {0}) × Disk
  pub unlink : Disk → Text → Outcome FsError (Unit {0}) × Disk
  pub rimraf : Disk → Text → Outcome FsError (Unit {0}) × Disk
  -- `path.join` and `path.dirname`
  pub join : List Text → Text
  pub dirname : Text → Text
  -- the text of a number, and the six random characters of the n-th write
  pub show : ℕ → Text
  pub random : ℕ → Text

pub data ErrorName : Type 0 where
  snapshot_read_error snapshot_write_error snapshot_delete_error failover_read_error : ErrorName

module _ (fs : FileSystem) where
  open fs use {Disk, FsError}

  pub record Snapshot : Type 0 where
    pub cache_dir : Text
    pub pid : ℕ
    pub write_seq : ℕ
    pub disk : Disk
    -- the errors emitted so far, the last one first
    pub emitted : List (ErrorName × FsError)

  abbrev emit : Snapshot → ErrorName → FsError → Snapshot
  emit s name e = record s { emitted = (name, e) ∷ s.emitted }

  pub get_snapshot_file : Snapshot → Text → Text
  get_snapshot_file s key = fs.join (s.cache_dir ∷ codes "snapshot" ∷ key ∷ [])

  pub get_failover_file : Snapshot → Text → Text
  get_failover_file s key = fs.join (s.cache_dir ∷ codes "failover" ∷ key ∷ [])

  abbrev read_existing : Snapshot → Text → Outcome FsError Bool → Option Text × Snapshot
  read_existing s filepath (ok true) = elim (fs.read_file s.disk filepath) [
    | ok text ↦ (some text, s)
    | err e ↦ (none, emit s snapshot_read_error e)
  ]
  read_existing s filepath (ok false) = (none, s)
  read_existing s filepath (err e) = (none, emit s snapshot_read_error e)

  unfoldable pub get : Snapshot → Text → Option Text × Snapshot
  get s key =
      let filepath = get_snapshot_file s key in read_existing s filepath (fs.exists s.disk filepath)

  abbrev after_rimraf : Snapshot → Outcome FsError (Unit {0}) × Disk → Snapshot
  after_rimraf s (ok _, disk) = record s { disk = disk }
  after_rimraf s (err e, disk) = emit (record s { disk = disk }) snapshot_delete_error e

  unfoldable pub delete : Snapshot → Text → Snapshot
  delete s key = after_rimraf s (fs.rimraf s.disk (get_snapshot_file s key))

  -- the temporary file of a write: `${filepath}.${pid}.${seq}.${random}.tmp`
  pub tmp_path : ℕ → Text → ℕ → Text
  tmp_path pid filepath seq =
      filepath
      ++ (codes "."
          ++ (fs.show pid
              ++ (codes "." ++ (fs.show seq ++ (codes "." ++ (fs.random seq ++ codes ".tmp"))))))

  -- the `catch` block of `save`: drop the temporary file, report the error
  abbrev abort : Snapshot → Text → Disk → FsError → Snapshot
  abort s tmp disk e =
      let (_, disk') = fs.unlink disk tmp in emit (record s { disk = disk' }) snapshot_write_error e

  abbrev finish : Snapshot → Text → Outcome FsError (Unit {0}) × Disk → Snapshot
  finish s tmp (ok _, disk) = record s { disk = disk }
  finish s tmp (err e, disk) = abort s tmp disk e

  abbrev move : Snapshot → Text → Text → Outcome FsError (Unit {0}) × Disk → Snapshot
  move s filepath tmp (ok _, disk) = finish s tmp (fs.rename disk tmp filepath)
  move s filepath tmp (err e, disk) = abort s tmp disk e

  abbrev write : Snapshot → Text → Text → Text → Outcome FsError (Unit {0}) × Disk → Snapshot
  write s filepath tmp value (ok _, disk) = move s filepath tmp (fs.write_file disk tmp value)
  write s filepath tmp value (err e, disk) = abort s tmp disk e

  -- An empty value is a deletion; otherwise write a temporary file and rename it.
  unfoldable pub save : Snapshot → Text → Text → Snapshot
  save s key value =
      let filepath = get_snapshot_file s key in
      let seq = suc s.write_seq in
      let tmp = tmp_path s.pid filepath seq in
      if is_empty value
      then delete s key
      else write (record s { write_seq = seq }) filepath tmp value
          (fs.mkdirp s.disk (fs.dirname filepath))

  abbrev fail_failover : Snapshot → FsError → Option Text × Snapshot
  fail_failover s e = (none, if fs.is_enoent e then s else emit s failover_read_error e)

  unfoldable pub get_failover : Snapshot → Text → Option Text × Snapshot
  get_failover s key =
      let filepath = get_failover_file s key in
      elim (fs.stat s.disk filepath) [
        | ok st ↦
            if st.is_file
            then (elim (fs.read_file s.disk filepath) [
              | ok text ↦ (some text, s)
              | err e ↦ fail_failover s e
            ])
            else (none, s)
        | err e ↦ fail_failover s e
      ]

  unfoldable pub get_failover_mtime : Snapshot → Text → Option ℕ
  get_failover_mtime s key = elim (fs.stat s.disk (get_failover_file s key)) [
    | ok st ↦ if st.is_file then some st.mtime_ms else none
    | err e ↦ none
  ]
