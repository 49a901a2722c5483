-- ===== src/Config/Snapshot/Atomic.antt =====
-- What a save leaves on disk, over a file system that behaves as documented.
use nacos_sdk_nodejs.Prelude.{
  ℕ, suc, ◌≡◌, ◌≢◌, refl, ap, ◌∙◌, true, false, none, some, Text, Outcome, ok, err, [], ◌∷◌, arith,
  length, length-append, is_empty,
}
use nacos_sdk_nodejs.Config.Snapshot.{
  FileSystem, Snapshot, snapshot_write_error, snapshot_delete_error, get_snapshot_file, get, delete,
  save, after_rimraf, tmp_path, abort, finish, move, write,
}

module _ (fs : FileSystem) where
  open fs use {Disk, FsError}

  -- The file, or its absence, at a path is the same on two disks.
  pub record SameFile (d d' : Disk) (p : Text) : Type 0 where
    pub exists : fs.exists d' p ≡ fs.exists d p
    pub content : fs.read_file d' p ≡ fs.read_file d p

  -- What the code relies on. A write or a removal touches one path; making the directories above a
  -- file does not touch the file; a rename puts the old file's content at the new path, or fails
  -- and changes no file.
  pub record Lawful : Type 0 where
    pub write-read :
        (d d' : Disk) (p v : Text)
        → fs.write_file d p v ≡ (ok tt, d')
        → (fs.exists d' p ≡ ok true) × (fs.read_file d' p ≡ ok v)
    pub write-SameFile : (d : Disk) (p v q : Text) → q ≢ p → SameFile d (fs.write_file d p v).1 q
    pub mkdirp-SameFile : (d : Disk) (q : Text) → SameFile d (fs.mkdirp d (fs.dirname q)).1 q
    pub unlink-SameFile : (d : Disk) (p q : Text) → q ≢ p → SameFile d (fs.unlink d p).1 q
    pub rename-moves :
        (d d' : Disk) (p q : Text)
        → fs.rename d p q ≡ (ok tt, d')
        → (fs.exists d' q ≡ fs.exists d p) × (fs.read_file d' q ≡ fs.read_file d p)
    pub rename-fails :
        (d d' : Disk) (p q : Text) (e : FsError) → fs.rename d p q ≡ (err e, d') → SameFile d d' q
    pub rimraf-removes :
        (d d' : Disk) (p : Text) → fs.rimraf d p ≡ (ok tt, d') → fs.exists d' p ≡ ok false

  SameFile-trans : {d e f : Disk} {p : Text} → SameFile d e p → SameFile e f p → SameFile d f p
  SameFile-trans a b = record { exists = b.exists ∙ a.exists; content = b.content ∙ a.content }

  tmp_path-ne : (pid : ℕ) (p : Text) (seq : ℕ) → p ≢ tmp_path fs pid p seq
  unfolding tmp_path
  tmp_path-ne pid p seq e = omega (arith, ap length e, length-append {0} p)

  pub get-SameFile :
      (s s' : Snapshot fs) (key : Text)
      → s'.cache_dir ≡ s.cache_dir
      → SameFile s.disk s'.disk (get_snapshot_file fs s key)
      → (get fs s' key).0 ≡ (get fs s key).0
  unfolding get get_snapshot_file
  get-SameFile s s' key c f = ground (arith, f.exists, f.content)

  -- How a save ends: the new value is read back and no error was emitted, or the old state is read
  -- back and one write error was emitted.
  pub data Saved (s s' : Snapshot fs) (key value : Text) : Type 0 where
    written : (get fs s' key).0 ≡ some value → s'.emitted ≡ s.emitted → Saved s s' key value
    unchanged :
        (e : FsError)
        → (get fs s' key).0 ≡ (get fs s key).0
        → s'.emitted ≡ (snapshot_write_error, e) ∷ s.emitted
        → Saved s s' key value

  module _ (w : Lawful) (s : Snapshot fs) (key value : Text) (n : ℕ) where
    abbrev file : Text
    file = get_snapshot_file fs s key

    abbrev tmp : Text
    tmp = tmp_path fs s.pid file n

    abbrev s1 : Snapshot fs
    s1 = record s { write_seq = n }

    abort-Saved :
        (d : Disk) (e : FsError) → SameFile s.disk d file → Saved s (abort fs s1 tmp d e) key value
    unfolding get_snapshot_file
    abort-Saved d e f =
        unchanged e
          (get-SameFile s (abort fs s1 tmp d e) key refl
            (SameFile-trans f (w.unlink-SameFile d tmp file (tmp_path-ne s.pid file n))))
          refl

    -- the rename, on a disk where the temporary file holds the value
    finish-Saved :
        (d : Disk) (r : Outcome FsError (Unit {0}) × Disk)
        → SameFile s.disk d file
        → fs.exists d tmp ≡ ok true
        → fs.read_file d tmp ≡ ok value
        → fs.rename d tmp file ≡ r
        → Saved s (finish fs s1 tmp r) key value
    unfolding get get_snapshot_file
    finish-Saved d (ok tt, d') f x v e =
        let m = w.rename-moves d d' tmp file e in written (ground (arith, m, x, v)) refl
    finish-Saved d (err o, d') f x v e =
        abort-Saved d' o (SameFile-trans f (w.rename-fails d d' tmp file o e))

    move-Saved :
        (d : Disk) (r : Outcome FsError (Unit {0}) × Disk)
        → SameFile s.disk d file
        → fs.write_file d tmp value ≡ r
        → Saved s (move fs s1 file tmp r) key value
    move-Saved d (ok tt, d') f e =
        let m = w.write-read d d' tmp value e in
        finish-Saved d' (fs.rename d' tmp file)
          (SameFile-trans f
            (rw e at (w.write-SameFile d tmp value file (tmp_path-ne s.pid file n))))
          m.0 m.1 refl
    move-Saved d (err o, d') f e =
        abort-Saved d' o (
          SameFile-trans f (rw e at (w.write-SameFile d tmp value file (tmp_path-ne s.pid file n))))

    write-Saved :
        (r : Outcome FsError (Unit {0}) × Disk)
        → fs.mkdirp s.disk (fs.dirname file) ≡ r
        → Saved s (write fs s1 file tmp value r) key value
    write-Saved (ok tt, d) e =
        move-Saved d (fs.write_file d tmp value) (rw e at (w.mkdirp-SameFile s.disk file)) refl
    write-Saved (err o, d) e = abort-Saved d o (rw e at (w.mkdirp-SameFile s.disk file))

  -- On a file system that behaves as documented, a save of a value that is not empty has one of two
  -- ends, whichever call of the file system fails: the new value is read back and no error was
  -- emitted, or the read gives what it gave before and one `SnapshotWriteError` was emitted.
  pub save-Saved :
      (w : Lawful) (s : Snapshot fs) (key value : Text)
      → is_empty value ≡ false
      → Saved s (save fs s key value) key value
  unfolding save
  save-Saved w s key value h = rw h (
      write-Saved w s key value (suc s.write_seq)
        (fs.mkdirp s.disk (fs.dirname (get_snapshot_file fs s key))) refl)

  -- How a deletion ends.
  pub data Removed (s s' : Snapshot fs) (key : Text) : Type 0 where
    removed : (get fs s' key).0 ≡ none → s'.emitted ≡ s.emitted → Removed s s' key
    failed : (e : FsError) → s'.emitted ≡ (snapshot_delete_error, e) ∷ s.emitted → Removed s s' key

  rimraf-Removed :
      (w : Lawful) (s : Snapshot fs) (key : Text) (r : Outcome FsError (Unit {0})) (d : Disk)
      → fs.rimraf s.disk (get_snapshot_file fs s key) ≡ (r, d)
      → Removed s (after_rimraf fs s (r, d)) key
  unfolding get get_snapshot_file
  rimraf-Removed w s key (ok tt) d e =
      removed (ground (arith, w.rimraf-removes s.disk d (get_snapshot_file fs s key) e)) refl
  rimraf-Removed w s key (err o) d e = failed o refl

  -- A save of the empty value deletes: the next read finds nothing and no error was emitted, or one
  -- `SnapshotDeleteError` was emitted.
  pub save_empty-Removed :
      (w : Lawful) (s : Snapshot fs) (key : Text) → Removed s (save fs s key []) key
  unfolding save delete
  save_empty-Removed w s key = rimraf-Removed w s key _ _ refl
