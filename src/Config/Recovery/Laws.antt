-- ===== src/Config/Recovery/Laws.antt =====
-- What `ISnapshot` keeps to on a disk where no save, deletion or read fails: each key has one content,
-- an empty content is not stored, and the failover files are never written. The program's own
-- snapshots, with what they do where the disk fails, are in Config/Snapshot.
use nacos_sdk_nodejs.Prelude.{◌≡◌, false, none, some, Text, [], if◌then◌else◌, is_empty, text_eq}
use nacos_sdk_nodejs.Config.Recovery.{SnapshotStore}

pub record SnapshotLaws {S : Type 0} (st : SnapshotStore S) : Type 0 where
  pub get-save :
      (s : S) (k v j : Text)
      → is_empty v ≡ false
      → (st.get (st.save s k v) j).0 ≡ (if text_eq k j then some v else (st.get s j).0)
  pub get-save_empty :
      (s : S) (k j : Text)
      → (st.get (st.save s k []) j).0 ≡ (if text_eq k j then none else (st.get s j).0)
  pub get-delete :
      (s : S) (k j : Text)
      → (st.get (st.delete s k) j).0 ≡ (if text_eq k j then none else (st.get s j).0)
  pub get-get : (s : S) (k j : Text) → (st.get (st.get s k).1 j).0 ≡ (st.get s j).0
  pub get-get_failover :
      (s : S) (k j : Text) → (st.get (st.get_failover s k).1 j).0 ≡ (st.get s j).0
  pub get_failover-save :
      (s : S) (k v j : Text) → (st.get_failover (st.save s k v) j).0 ≡ (st.get_failover s j).0
  pub get_failover-delete :
      (s : S) (k j : Text) → (st.get_failover (st.delete s k) j).0 ≡ (st.get_failover s j).0
  pub get_failover-get :
      (s : S) (k j : Text) → (st.get_failover (st.get s k).1 j).0 ≡ (st.get_failover s j).0
  pub get_failover-get_failover :
      (s : S) (k j : Text) → (st.get_failover (st.get_failover s k).1 j).0 ≡ (st.get_failover s j).0
