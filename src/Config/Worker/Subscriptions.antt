-- ===== src/Config/Worker/Subscriptions.antt =====
-- packages/nacos-config/src/client_worker.ts: the subscriptions of a `ClientWorker`. The listeners
-- are those of the `EventEmitter` that it extends, by number. What the source hands to
-- `setImmediate`, `process.nextTick` or an asynchronous call is put on `queued`. A method runs up to
-- its next `await`; what it does with the results after the `await` is a method of its own. An item
-- is a place of the heap: `checkLocalFailover` keeps its item over two awaits, while the key may be
-- dropped and subscribed anew.
pub mod Delivery
use nacos_sdk_nodejs.Prelude.{
  ℕ, suc, Bool, true, false, ◌&&◌, ◌||◌, Option, none, some, Text, Outcome, ok, err, List, [], ◌∷◌,
  ◌++◌, map, if◌then◌else◌, ◌==◌, text_eq, is_some,
}
use nacos_sdk_nodejs.Prelude.Dict
use nacos_sdk_nodejs.Prelude.Emitter.{is_nil, remove_last}
use nacos_sdk_nodejs.Prelude.Dict.{Dict}
use nacos_sdk_nodejs.Config.Worker.Env.{Env, format_key, get_snapshot_key_encoded}

pub record Item : Type 0 where
  pub data_id : Text
  pub group : Text
  pub md5 : Option Text
  pub content : Option Text
  pub use_failover : Bool
  pub failover_version : Option ℕ

-- The item of a new subscription. The source leaves `useFailover` and `failoverVersion` undefined.
abbrev pub fresh_item : Text → Text → Item
fresh_item data_id group = record {
  data_id = data_id;
  group = group;
  md5 = none;
  content = none;
  use_failover = false;
  failover_version = none;
}

pub data Queued (HttpError : Type 0) : Type 0 where
  -- `this.emit(key, content)`, with the item that it is about
  emit : ℕ → Text → Option Text → Queued HttpError
  -- `listener(item.content)`
  call_listener : ℕ → Option Text → Queued HttpError
  -- `this.emit('error', err)`; the error of a failed read is wrapped
  emit_error : HttpError → Queued HttpError
  -- `syncConfigs([ item ])`, then `startLongPulling()`
  sync_and_poll : Text → Text → Queued HttpError

-- where `checkLocalFailover` waits: for the file's time, or for its content
pub data Check : Type 0 where
  at_mtime : Text → ℕ → Check
  at_content : Text → ℕ → ℕ → Check

-- one entry of the list that `syncConfigs` is given, with what its read returned
pub record SyncResult (HttpError : Type 0) : Type 0 where
  pub data_id : Text
  pub group : Text
  pub result : Outcome HttpError (Option Text)

module _ (env : Env) where
  open env use {HttpError}

  pub record Worker : Type 0 where
    pub is_close : Bool
    pub is_long_pulling : Bool
    pub subscriptions : Dict ℕ
    pub heap : ℕ → Item
    pub next : ℕ
    pub checking : Option Check
    pub listeners : Dict (List ℕ)
    -- the last one first
    pub queued : List (Queued HttpError)

  abbrev pub init : Worker
  init = record {
    is_close = false;
    is_long_pulling = false;
    subscriptions = [];
    heap = λ i. fresh_item [] [];
    next = 0;
    checking = none;
    listeners = [];
    queued = [];
  }

  abbrev pub listeners_of : Worker → Text → List ℕ
  listeners_of w key = elim (Dict.get key w.listeners) [ none ↦ [] | some ls ↦ ls ]

  -- `getMD5String`: the empty text for `null`
  abbrev pub get_md5_string : Option Text → Text
  get_md5_string none = []
  get_md5_string (some t) = env.md5 t

  -- `item.md5 === md5`
  abbrev pub same_md5 : Option Text → Text → Bool
  same_md5 none m = false
  same_md5 (some k) m = text_eq k m

  abbrev on : Worker → Text → ℕ → Worker
  on w key l = record w { listeners = Dict.set key (listeners_of w key ++ l ∷ []) w.listeners }

  -- an assignment to fields of an item
  abbrev pub set_item : ℕ → Item → Worker → Worker
  set_item i item w = record w { heap = λ j. if j == i then item else w.heap j }

  abbrev add_item : Worker → Text → Text → Text → Option ℕ → ℕ → Worker
  add_item w key data_id group none l = record (set_item w.next (fresh_item data_id group) w) {
    subscriptions = Dict.set key w.next w.subscriptions;
    next = suc w.next;
    queued = sync_and_poll data_id group ∷ w.queued;
  }
  add_item w key data_id group (some i) l =
      if is_some (w.heap i).md5
      then record w { queued = call_listener l (w.heap i).content ∷ w.queued }
      else w

  pub subscribe : Worker → Text → Text → ℕ → Worker
  subscribe w data_id group l =
      let key = format_key env data_id group in
      add_item (on w key l) key data_id group (Dict.get key w.subscriptions) l

  abbrev without : Option ℕ → List ℕ → List ℕ
  without none ls = []
  without (some l) ls = remove_last l ls

  -- drop the item if nobody listens any more
  pub un_subscribe : Worker → Text → Text → Option ℕ → Worker
  un_subscribe w data_id group listener =
      let key = format_key env data_id group in
      let left = without listener (listeners_of w key) in
      record w {
        listeners = Dict.set key left w.listeners;
        subscriptions = if is_nil left then Dict.delete key w.subscriptions else w.subscriptions;
      }

  abbrev accept : Worker → Text → ℕ → Outcome HttpError (Option Text) → Worker
  accept w key i (err e) = record w { queued = emit_error e ∷ w.queued }
  accept w key i (ok content) =
      let md5 = get_md5_string content in
      if same_md5 (w.heap i).md5 md5
      then w
      else record (set_item i (record (w.heap i) { md5 = some md5; content = content }) w) {
        queued = emit i key content ∷ w.queued;
      }

  -- the body of the loop of `syncConfigs`
  pub sync_one : Worker → SyncResult HttpError → Worker
  sync_one w r =
      let key = format_key env r.data_id r.group in
      elim (Dict.get key w.subscriptions) [ none ↦ w | some i ↦ accept w key i r.result ]

  -- `syncConfigs`, once the reads have returned
  pub sync_configs : Worker → List (SyncResult HttpError) → Worker
  sync_configs w [] = w
  sync_configs w (r ∷ rs) = sync_configs (sync_one w r) rs

  abbrev pub same_version : Option ℕ → ℕ → Bool
  same_version none m = false
  same_version (some v) m = v == m

  -- what follows the await of the content, on the item that the loop holds
  abbrev load_failover : Worker → Text → ℕ → ℕ → Option Text → Worker
  load_failover w key i mtime none = w
  load_failover w key i mtime (some content) =
      let md5 = env.md5 content in
      let pinned = record (w.heap i) { use_failover = true; failover_version = some mtime } in
      if same_md5 (w.heap i).md5 md5
      then set_item i pinned w
      else record (set_item i (record pinned { md5 = some md5; content = some content }) w) {
        queued = emit i key (some content) ∷ w.queued;
      }

  -- what follows the await of the time
  abbrev follow_file : Worker → Text → ℕ → Option ℕ → Worker
  follow_file w key i none =
      if (w.heap i).use_failover
      then set_item i (record (w.heap i) { use_failover = false; failover_version = none }) w
      else w
  follow_file w key i (some mtime) =
      if (w.heap i).use_failover && same_version (w.heap i).failover_version mtime
      then w
      else record w { checking = some (at_content key i mtime) }

  -- the loop of `checkLocalFailover` comes to a key
  abbrev begin_check : Worker → Text → Option ℕ → Option Check → Worker
  begin_check w key none c = w
  begin_check w key (some i) (some c) = w
  begin_check w key (some i) none = record w { checking = some (at_mtime key i) }

  pub check_failover_of : Worker → Text → Worker
  check_failover_of w key = begin_check w key (Dict.get key w.subscriptions) w.checking

  -- the time of the file is read: none where there is no file
  abbrev with_mtime : Worker → Option ℕ → Option Check → Worker
  with_mtime w mtime none = w
  with_mtime w mtime (some (at_mtime key i)) =
      follow_file (record w { checking = none }) key i mtime
  with_mtime w mtime (some (at_content key i m)) = w

  -- the content of the file is read
  abbrev with_content : Worker → Option Text → Option Check → Worker
  with_content w content none = w
  with_content w content (some (at_mtime key i)) = w
  with_content w content (some (at_content key i m)) =
      load_failover (record w { checking = none }) key i m content

  pub close : Worker → Worker
  close w = record w { is_close = true; listeners = []; subscriptions = [] }

  pub data Op : Type 0 where
    subscribes : Text → Text → ℕ → Op
    un_subscribes : Text → Text → Option ℕ → Op
    syncs : List (SyncResult HttpError) → Op
    checks : Text → Op
    mtime_read : Option ℕ → Op
    content_read : Option Text → Op
    closes : Op

  pub step : Worker → Op → Worker
  step w (subscribes data_id group l) = subscribe w data_id group l
  step w (un_subscribes data_id group l) = un_subscribe w data_id group l
  step w (syncs results) = sync_configs w results
  step w (checks key) = check_failover_of w key
  step w (mtime_read mtime) = with_mtime w mtime w.checking
  step w (content_read content) = with_content w content w.checking
  step w closes = close w

  pub run : Worker → List Op → Worker
  run w [] = w
  run w (o ∷ os) = run (step w o) os
