-- ===== src/Examples/Probes.antt =====
-- Two subscriptions, one of which follows a failover file.
use nacos_sdk_nodejs.Prelude.{◌≡◌, refl, true, some, codes, [], ◌∷◌}
use nacos_sdk_nodejs.Prelude.Dict.{Dict}
use nacos_sdk_nodejs.Config.Worker.Subscriptions.{Item, fresh_item}
use nacos_sdk_nodejs.Config.Worker.Probe.{probe, parse_update}
use nacos_sdk_nodejs.Config.Worker.Probe.Listing.{lacks, all_clean, watched, parse_update-probe}

abbrev items : Dict Item
items =
    (codes "a", record (fresh_item (codes "d") (codes "g")) { md5 = some (codes "m") })
    ∷ (codes "b", record (fresh_item (codes "e") (codes "g")) { use_failover = true })
    ∷ []

parse_update-probe_example : parse_update (probe (codes "t") items) ≡ (codes "d", codes "g") ∷ []
unfolding lacks all_clean watched
parse_update-probe_example = parse_update-probe (codes "t") items refl refl
