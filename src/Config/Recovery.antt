-- ===== src/Config/Recovery.antt =====
-- packages/nacos-config/src/disaster_recovery.ts: the read of a configuration with local disaster
-- recovery, over the interface `ISnapshot` of packages/nacos-config/src/interface.ts. The body runs
-- inside the lock of the snapshot key (`withSnapshotLock`), so it is one run of state passing; the
-- lock is the queue of Config/KeyedQueue.antt.
pub mod Laws
pub mod Priority
use nacos_sdk_nodejs.Prelude.{
  Option, none, some, Text, Outcome, ok, err, codes, ◌++◌, get_or_else, Bool,
}

-- `ISnapshot`: the methods over the state `S` of the implementation and of its disk. A method may
-- change the state also where it reads, since it may emit an error.
pub record SnapshotStore (S : Type 0) : Type 0 where
  pub cache_dir : Text
  pub get : S → Text → Option Text × S
  pub save : S → Text → Text → S
  pub delete : S → Text → S
  pub get_failover : S → Text → Option Text × S

-- the key of the shared lock: `${snapshot.cacheDir}::${snapshotKey}`
pub lock_key : Text → Text → Text
lock_key cache_dir snapshot_key = cache_dir ++ (codes "::" ++ snapshot_key)

pub data ConfigContentSource : Type 0 where
  failover server snapshot : ConfigContentSource

pub record ConfigReadResult : Type 0 where
  pub content : Option Text
  pub source : ConfigContentSource

-- `W` is the whole state that the hooks change: the snapshot, the server and the errors reported.
pub record DisasterRecoveryHooks (E W : Type 0) : Type 0 where
  pub snapshot_key : Text
  pub snapshot : SnapshotStore W
  pub fetch_from_server : W → Outcome E (Option Text) × W
  pub read_snapshot_fallback : W → Option Text × W
  pub on_server_error : E → W → W
  pub clear_snapshot : W → W

module _ {E W : Type 0} (hooks : DisasterRecoveryHooks E W) where
  open hooks use {snapshot_key, snapshot as store}

  -- the `catch` block: the fallback's content, or the error once more
  unfoldable pub recover : E → Option Text × W → Outcome E ConfigReadResult × W
  recover e (some cache, w) =
      (ok (record { content = some cache; source = snapshot }), hooks.on_server_error e w)
  recover e (none, w) = (err e, w)

  -- what follows the `try` block
  unfoldable pub after_fetch : Outcome E (Option Text) × W → Outcome E ConfigReadResult × W
  unfolding recover
  after_fetch (err e, w) = recover e (hooks.read_snapshot_fallback w)
  after_fetch (ok none, w) =
      (ok (record { content = none; source = server }), hooks.clear_snapshot w)
  after_fetch (ok (some content), w) =
      (ok (record { content = some content; source = server }), store.save w snapshot_key content)

  unfoldable pub after_failover : Option Text × W → Outcome E ConfigReadResult × W
  unfolding after_fetch
  after_failover (some content, w) = (ok (record { content = some content; source = failover }), w)
  after_failover (none, w) = after_fetch (hooks.fetch_from_server w)

  unfoldable pub read_config_with_failover : W → Outcome E ConfigReadResult × W
  unfolding after_failover
  read_config_with_failover w = after_failover (store.get_failover w snapshot_key)
