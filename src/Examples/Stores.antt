-- ===== src/Examples/Stores.antt =====
-- Local copies in dictionaries.
use nacos_sdk_nodejs.Prelude.{
  ◌≡◌, refl, false, some, Text, text_eq, codes, [], ◌∷◌, if◌then◌else◌, is_empty,
}
use nacos_sdk_nodejs.Prelude.Dict
use nacos_sdk_nodejs.Prelude.Dict.{Dict, get-set, get-delete}
use nacos_sdk_nodejs.Config.Recovery.{SnapshotStore}
use nacos_sdk_nodejs.Config.Recovery.Laws.{SnapshotLaws}

pub record Saved : Type 0 where
  pub saved : Dict Text
  pub files : Dict Text

unfoldable pub save_in : Saved → Text → Text → Saved
save_in s k [] = record s { saved = Dict.delete k s.saved }
save_in s k (c ∷ cs) = record s { saved = Dict.set k (c ∷ cs) s.saved }

abbrev pub store : SnapshotStore Saved
store = record {
  cache_dir = codes "/cache";
  get = λ s k. (Dict.get k s.saved, s);
  save = save_in;
  delete = λ s k. record s { saved = Dict.delete k s.saved };
  get_failover = λ s k. (Dict.get k s.files, s);
}

pub store-SnapshotLaws : SnapshotLaws store
unfolding save_in
store-SnapshotLaws = record {
  get-save = saved_back;
  get-save_empty = λ s k j. get-delete k j s.saved;
  get-delete = λ s k j. get-delete k j s.saved;
  get-get = λ s k j. refl;
  get-get_failover = λ s k j. refl;
  get_failover-save = files_kept;
  get_failover-delete = λ s k j. refl;
  get_failover-get = λ s k j. refl;
  get_failover-get_failover = λ s k j. refl;
}
  where
    saved_back :
        (s : Saved) (k v j : Text)
        → is_empty v ≡ false
        → Dict.get j (save_in s k v).saved ≡ (if text_eq k j then some v else Dict.get j s.saved)
    saved_back s k [] j h = absurd cc
    saved_back s k (c ∷ cs) j h = get-set k j (c ∷ cs) s.saved

    files_kept : (s : Saved) (k v j : Text) → Dict.get j (save_in s k v).files ≡ Dict.get j s.files
    files_kept s k [] j = refl
    files_kept s k (c ∷ cs) j = refl
