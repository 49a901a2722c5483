-- ===== src/Config/Snapshot/Interface.antt =====
-- packages/nacos-config/src/snapshot.ts: `Snapshot` as the interface `ISnapshot` of its clients.
use nacos_sdk_nodejs.Prelude.{arith, ◌≡◌, refl, ap, Text, Bool-cases, inl, inr}
use nacos_sdk_nodejs.Config.Recovery.{SnapshotStore}
use nacos_sdk_nodejs.Config.Snapshot.{
  FileSystem, Snapshot, get_snapshot_file, get, delete, save, get_failover, fail_failover,
}
use nacos_sdk_nodejs.Config.Snapshot.Atomic.{get-SameFile}

module _ (fs : FileSystem) where
  unfoldable pub store_of : Text → SnapshotStore (Snapshot fs)
  store_of cache_dir = record {
    cache_dir = cache_dir;
    get = get fs;
    save = save fs;
    delete = delete fs;
    get_failover = get_failover fs;
  }

  -- the same files, in the same directory
  record SameDisk (s s' : Snapshot fs) : Type 0 where
    disk : s'.disk ≡ s.disk
    dir : s'.cache_dir ≡ s.cache_dir

  fail_failover-SameDisk : (s : Snapshot fs) (e : fs.FsError) → SameDisk s (fail_failover fs s e).1
  fail_failover-SameDisk s e = elim (Bool-cases (fs.is_enoent e)) [
    | inl h ↦ rw h (record { disk = refl; dir = refl })
    | inr h ↦ rw h (record { disk = refl; dir = refl })
  ]

  -- A read of a failover file changes no file.
  get_failover-SameDisk : (s : Snapshot fs) (key : Text) → SameDisk s (get_failover fs s key).1
  unfolding get_failover
  get_failover-SameDisk s key = record { disk = ground arith; dir = ground arith }

  pub get-get_failover :
      (s : Snapshot fs) (key k : Text) → (get fs (get_failover fs s key).1 k).0 ≡ (get fs s k).0
  get-get_failover s key k =
      let h = get_failover-SameDisk s key in
      get-SameFile fs s (get_failover fs s key).1 k h.dir (record {
        exists = ap (λ d. fs.exists d (get_snapshot_file fs s k)) h.disk;
        content = ap (λ d. fs.read_file d (get_snapshot_file fs s k)) h.disk;
      })
