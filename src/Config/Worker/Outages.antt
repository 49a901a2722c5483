-- ===== src/Config/Worker/Outages.antt =====
-- What `ClientWorker.getConfig` returns while the server is down, after the server's last answer, over
-- a disk that works.
use nacos_sdk_nodejs.Prelude.{
  ◌≡◌, ◌≢◌, refl, ◌∙◌, ap, false, Option, none, some, Text, Outcome, ok, err, [], ◌∷◌, arith,
  is_empty, text_eq_refl, text_eq_iff,
}
use nacos_sdk_nodejs.Config.Recovery.{ConfigReadResult, read_config_with_failover}
use nacos_sdk_nodejs.Config.Recovery.Laws.{SnapshotLaws}
use nacos_sdk_nodejs.Config.Recovery.Priority.{expected, kept, read-Meets, outage_after_read}
use nacos_sdk_nodejs.Config.Worker.Env.{Env, get_snapshot_key_encoded, get_snapshot_key_legacy}
use nacos_sdk_nodejs.Config.Worker.Requests.{World, http_hooks, get_config, content_of, get_request}
use nacos_sdk_nodejs.Config.Worker.Copies.{first, held, pinned, http-Consistent}

module _ (env : Env) (l : SnapshotLaws env.snapshot) (data_id group : Text) where
  -- The server's answer to a read in a world.
  abbrev pub server_answer : World env → Outcome env.HttpError (Option Text)
  server_answer w = (env.request w.net (get_request env data_id group)).0

  -- the world after a read of `getConfig`
  abbrev pub read_then : World env → World env
  read_then w = (get_config env data_id group w).1

  abbrev content_only : Outcome env.HttpError ConfigReadResult → Outcome env.HttpError (Option Text)
  content_only (ok r) = ok r.content
  content_only (err e) = err e

  content_of-0 :
      (r : Outcome env.HttpError ConfigReadResult × World env)
      → (content_of env r).0 ≡ content_only r.0
  content_of-0 (ok r, w) = refl
  content_of-0 (err e, w) = refl

  content_of-1 :
      (r : Outcome env.HttpError ConfigReadResult × World env) → (content_of env r).1 ≡ r.1
  content_of-1 (ok r, w) = refl
  content_of-1 (err e, w) = refl

  -- Two reads, the server answering the first with `o` and failing the second, over the content
  -- alone.
  get_config_outage :
      (w : World env) (o : Option Text) (e : env.HttpError)
      → pinned env l data_id group w ≡ none
      → server_answer w ≡ ok o
      → (o ≡ some [] → ⊥)
      → server_answer (read_then w) ≡ err e
      → (get_config env data_id group (read_then w)).0
        ≡ content_only (expected none (err e) (kept o)).0
  unfolding get_config http-Consistent
  get_config_outage w o e p a n f =
      content_of-0 _
      ∙ ap content_only (
          rw (content_of-1 (read_config_with_failover (http_hooks env data_id group) w)) (
            outage_after_read (http_hooks env data_id group) (http-Consistent env l data_id group) w
              o e p a (λ h. absurd (n h))
              (rw (content_of-1 (read_config_with_failover (http_hooks env data_id group) w)) at
                f)))

  -- Once the server has answered with a text that is not empty, and no failover file is present, a
  -- read while the server is down returns that text.
  answer_survives :
      (w : World env) (t : Text) (e : env.HttpError)
      → is_empty t ≡ false
      → pinned env l data_id group w ≡ none
      → server_answer w ≡ ok (some t)
      → server_answer (read_then w) ≡ err e
      → (get_config env data_id group (read_then w)).0 ≡ ok (some t)
  unfolding expected
  answer_survives w [] e h p a f = cc
  answer_survives w (c ∷ cs) e h p a f =
      get_config_outage w (some (c ∷ cs)) e p a (λ q. ground arith) f

  -- the world after a first read that the server answers with the empty text
  first_empty :
      (w : World env)
      → pinned env l data_id group w ≡ none
      → server_answer w ≡ ok (some [])
      → (read_then w).files
        ≡ env.snapshot.save
            (env.snapshot.get_failover w.files (get_snapshot_key_encoded env data_id group)).1
            (get_snapshot_key_encoded env data_id group)
            []
  unfolding get_config read_config_with_failover
  first_empty w p a = ground (arith, p, a)

  -- A read while the server is down, over what the copies hold.
  read_down :
      (w : World env) (t : Text) (e : env.HttpError)
      → pinned env l data_id group w ≡ none
      → server_answer w ≡ err e
      → held env l data_id group w ≡ some t
      → (get_config env data_id group w).0 ≡ ok (some t)
  unfolding get_config http-Consistent expected
  read_down w t e p a h =
      let m =
        read-Meets (http_hooks env data_id group) (http-Consistent env l data_id group) w
          (λ q. absurd (ground (arith, a, q))) in
      content_of-0 _ ∙ ap content_only (rw (p, a, h) at m.result)

  -- An answer with the empty text drops the copy under the encoded key alone: where a copy under
  -- another legacy key is present, a read while the server is down returns that old copy.
  pub empty_answer_revives_legacy :
      (w : World env) (t : Text) (e : env.HttpError)
      → get_snapshot_key_encoded env data_id group ≢ get_snapshot_key_legacy env data_id group
      → (env.snapshot.get w.files (get_snapshot_key_legacy env data_id group)).0 ≡ some t
      → pinned env l data_id group w ≡ none
      → server_answer w ≡ ok (some [])
      → server_answer (read_then w) ≡ err e
      → (get_config env data_id group (read_then w)).0 ≡ ok (some t)
  empty_answer_revives_legacy w t e n c p a f =
      let k = get_snapshot_key_encoded env data_id group in
      let j = get_snapshot_key_legacy env data_id group in
      let s = (env.snapshot.get_failover w.files k).1 in
      let x = first_empty w p a in
      let s' = env.snapshot.save s k [] in
      let kept_out : first (env.snapshot.get s' k).0 (env.snapshot.get s' j).0 ≡ some t = ground (
        arith,
        l.get-save_empty s k k,
        l.get-save_empty s k j,
        text_eq_refl k,
        text_eq_iff k j,
        l.get-get_failover w.files k j,
        c,
      ) in
      read_down (read_then w) t e
        (ap (λ (d : env.Store). (env.snapshot.get_failover d k).0) x
          ∙ l.get_failover-save s k [] k
          ∙ l.get_failover-get_failover w.files k k
          ∙ p)
        f
        (ap (λ (d : env.Store). first (env.snapshot.get d k).0 (env.snapshot.get d j).0) x
          ∙ kept_out)
