-- ===== src/Config/ServerList.antt =====
-- packages/nacos-config/src/server_list_mgr.ts: `ServerListManager`, the server addresses of each
-- unit and the one in use. The HTTP client, `JSON`, `trim` and the random index of `utility` are
-- parameters; the snapshot is the interface of Config/Recovery.antt.
pub mod Rotation
use nacos_sdk_nodejs.Prelude.{
  ℕ, suc, ◌+◌, ◌%◌, Bool, true, false, Option, none, some, Text, Outcome, ok, err, codes, List, [],
  ◌∷◌, ◌++◌, map, filter, length, get_elem?, if◌then◌else◌, ◌==◌, leb, is_empty, not,
}
use nacos_sdk_nodejs.Prelude.Dict
use nacos_sdk_nodejs.Prelude.Dict.{Dict}
use nacos_sdk_nodejs.Config.Recovery.{SnapshotStore}

pub record ServerCacheData : Type 0 where
  pub hosts : List Text
  pub index : ℕ

pub data MgrError (HttpError : Type 0) : Type 0 where
  request_failed : HttpError → MgrError HttpError
  server_response_error : ℕ → MgrError HttpError
  server_host_empty_error : MgrError HttpError
  json_parse_error : MgrError HttpError

pub record HttpResponse : Type 0 where
  pub status : ℕ
  pub data_text : Text

pub record MgrEnv : Type 1 where
  pub Store : Type 0
  pub Net : Type 0
  pub HttpError : Type 0
  pub snapshot : SnapshotStore Store
  pub request : Net → Text → Outcome HttpError HttpResponse × Net
  pub random : Net → ℕ → ℕ
  pub trim : Text → Text
  pub stringify : List Text → Text
  -- none where `JSON.parse` throws
  pub parse : Text → Option (List Text)
  pub join : List Text → Text
  pub name_server_addr : Text
  pub context_path : Text
  pub cluster_name : Text
  pub endpoint_query_params : Text

-- `text.split(c)` for one character
unfoldable pub split_on : ℕ → Text → List Text
split_on c [] = [] ∷ []
split_on c (x ∷ xs) = elim (split_on c xs) [
  | [] ↦ []
  | s ∷ ss ↦ if x == c then [] ∷ s ∷ ss else (x ∷ s) ∷ ss
]

module _ (env : MgrEnv) where
  open env use {Store, Net, HttpError, snapshot as store}

  pub record Manager : Type 0 where
    -- an entry that is `null` is none
    pub server_list_cache : Dict (Option ServerCacheData)
    pub current_server_addr_map : Dict Text
    pub files : Store
    pub net : Net
    -- the errors emitted, the last one first
    pub emitted : List (MgrError HttpError)

  abbrev emit : MgrError HttpError → Manager → Manager
  emit e m = record m { emitted = e ∷ m.emitted }

  pub format_key : Text → Text
  format_key unit = env.join (codes "server_list" ∷ unit ∷ [])

  pub get_request_url : Text
  get_request_url =
      codes "http://"
      ++ (env.name_server_addr
          ++ (codes "/"
              ++ (env.context_path
                  ++ (codes "/"
                      ++ (env.cluster_name
                          ++ (if is_empty env.endpoint_query_params
                              then []
                              else codes "?" ++ env.endpoint_query_params))))))

  -- the hosts that a response lists
  abbrev pub hosts_of : Text → List Text
  hosts_of text = filter (λ h. not (is_empty h)) (map env.trim (split_on 10 text))

  -- `request`, and the test for an empty list
  abbrev check : Outcome HttpError HttpResponse → Outcome (MgrError HttpError) (List Text)
  check (err e) = err (request_failed e)
  check (ok r) =
      if r.status == 200
      then (elim (hosts_of r.data_text) [ [] ↦ err server_host_empty_error | h ∷ hs ↦ ok (h ∷ hs) ])
      else err (server_response_error r.status)

  -- the `catch` block: the list in the snapshot, dropped if it cannot be parsed
  abbrev parse_snapshot : Text → Option Text × Manager → Option (List Text) × Manager
  parse_snapshot key (none, m) = (none, m)
  parse_snapshot key (some text, m) = if is_empty text then (none, m) else elim (env.parse text) [
    | some hosts ↦ (some hosts, m)
    | none ↦ (none, emit json_parse_error (record m { files = store.delete m.files key }))
  ]

  abbrev load_snapshot : Text → Manager → Option (List Text) × Manager
  load_snapshot key m =
      let (o, files) = store.get m.files key in parse_snapshot key (o, record m { files = files })

  abbrev gather_hosts :
      Text → Outcome (MgrError HttpError) (List Text) → Manager → Option (List Text) × Manager
  gather_hosts key (ok hosts) m =
      (some hosts, record m { files = store.save m.files key (env.stringify hosts) })
  gather_hosts key (err e) m = load_snapshot key (emit e m)

  abbrev put_hosts : Text → Option (List Text) × Manager → Option ServerCacheData × Manager
  put_hosts unit (some (h ∷ hs), m) =
      let entry : ServerCacheData = record {
        hosts = h ∷ hs;
        index = env.random m.net (length (h ∷ hs));
      } in
      (some entry, record m { server_list_cache = Dict.set unit (some entry) m.server_list_cache })
  put_hosts unit (some [], m) =
      (none, record m { server_list_cache = Dict.set unit none m.server_list_cache })
  put_hosts unit (none, m) =
      (none, record m { server_list_cache = Dict.set unit none m.server_list_cache })

  unfoldable pub fetch_server_list : Text → Manager → Option ServerCacheData × Manager
  fetch_server_list unit m =
      let (r, net) = env.request m.net get_request_url in
      put_hosts unit (gather_hosts (format_key unit) (check r) (record m { net = net }))

  abbrev entry_of : Option (Option ServerCacheData) → Option ServerCacheData
  entry_of none = none
  entry_of (some e) = e

  -- the index that is used: the first one where the stored one is out of range
  abbrev pub wrap : ℕ → ℕ → ℕ
  wrap index size = if leb size index then 0 else index

  abbrev use_server : Text → Manager → List Text → ℕ → Option Text → Manager
  use_server unit m hosts i none = m
  use_server unit m hosts i (some host) = record m {
    server_list_cache =
        Dict.set unit (some (record { hosts = hosts; index = (i + 1) % length hosts }))
          m.server_list_cache;
    current_server_addr_map = Dict.set unit host m.current_server_addr_map;
  }

  abbrev rotate : Text → Manager → Option ServerCacheData → Manager
  rotate unit m none = m
  rotate unit m (some d) =
      let i = wrap d.index (length d.hosts) in use_server unit m d.hosts i (get_elem? d.hosts i)

  unfoldable pub update_current_server : Text → Manager → Manager
  update_current_server unit m =
      let known = if Dict.has unit m.server_list_cache then m else (fetch_server_list unit m).1 in
      rotate unit known (entry_of (Dict.get unit known.server_list_cache))

  -- `getCurrentServerAddr`; none is `undefined`
  unfoldable pub get_current_server_addr : Text → Manager → Option Text × Manager
  get_current_server_addr unit m =
      let m' =
        if Dict.has unit m.current_server_addr_map then m else update_current_server unit m in
      (Dict.get unit m'.current_server_addr_map, m')
