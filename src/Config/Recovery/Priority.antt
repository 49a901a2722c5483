-- ===== src/Config/Recovery/Priority.antt =====
-- What a read with disaster recovery returns, and what it leaves for the next one.
use nacos_sdk_nodejs.Prelude.{
  ◌≡◌, refl, ◌∙◌, Option, none, some, Text, Outcome, ok, err, [], ◌∷◌, arith, is_empty, false,
}
use nacos_sdk_nodejs.Config.Recovery.{
  DisasterRecoveryHooks, ConfigReadResult, failover, server, snapshot, read_config_with_failover,
  after_failover, after_fetch, recover,
}

-- The content that a snapshot can hold: an empty one is not stored.
abbrev pub kept : Option Text → Option Text
kept none = none
kept (some []) = none
kept (some (c ∷ cs)) = some (c ∷ cs)

-- What a transport's hooks promise of the local copies. `held` is what the fallback reads, `pinned`
-- is the failover file. A server read touches neither.
pub record Consistent {E W : Type 0} (hooks : DisasterRecoveryHooks E W) : Type 0 where
  pub held : W → Option Text
  pub pinned : W → Option Text
  pub reads_pinned : (w : W) → (hooks.snapshot.get_failover w hooks.snapshot_key).0 ≡ pinned w
  pub failover-held : (w : W) → held (hooks.snapshot.get_failover w hooks.snapshot_key).1 ≡ held w
  pub failover-pinned :
      (w : W) → pinned (hooks.snapshot.get_failover w hooks.snapshot_key).1 ≡ pinned w
  pub fetch-held : (w : W) → held (hooks.fetch_from_server w).1 ≡ held w
  pub fetch-pinned : (w : W) → pinned (hooks.fetch_from_server w).1 ≡ pinned w
  pub reads_held : (w : W) → (hooks.read_snapshot_fallback w).0 ≡ held w
  pub fallback-held : (w : W) → held (hooks.read_snapshot_fallback w).1 ≡ held w
  pub fallback-pinned : (w : W) → pinned (hooks.read_snapshot_fallback w).1 ≡ pinned w
  pub report-held : (e : E) (w : W) → held (hooks.on_server_error e w) ≡ held w
  pub report-pinned : (e : E) (w : W) → pinned (hooks.on_server_error e w) ≡ pinned w
  pub clear-held : (w : W) → held (hooks.clear_snapshot w) ≡ none
  pub clear-pinned : (w : W) → pinned (hooks.clear_snapshot w) ≡ pinned w
  pub save-held :
      (w : W) (t : Text)
      → is_empty t ≡ false
      → held (hooks.snapshot.save w hooks.snapshot_key t) ≡ some t
  pub save-pinned :
      (w : W) (t : Text) → pinned (hooks.snapshot.save w hooks.snapshot_key t) ≡ pinned w

-- The specification, over what the local copies hold: the failover file `pinned`, the server's
-- answer, and the snapshot `held`. It gives the result and the snapshot that is left.
unfoldable pub expected :
    {E : Type 0}
    → Option Text
    → Outcome E (Option Text)
    → Option Text
    → Outcome E ConfigReadResult × Option Text
expected (some t) answer held = (ok (record { content = some t; source = failover }), held)
expected none (ok content) held = (ok (record { content = content; source = server }), kept content)
expected none (err e) (some t) = (ok (record { content = some t; source = snapshot }), some t)
expected none (err e) none = (err e, none)

module _ {E W : Type 0} (hooks : DisasterRecoveryHooks E W) (c : Consistent hooks) where
  -- A save of the empty text leaves nothing that the fallback reads.
  abbrev pub Tidy : Type 0
  Tidy = (w : W) → c.held (hooks.snapshot.save w hooks.snapshot_key []) ≡ none

  -- what the server answers to a read that reaches it
  abbrev pub answer : W → Outcome E (Option Text)
  answer w = (hooks.fetch_from_server (hooks.snapshot.get_failover w hooks.snapshot_key).1).0

  -- The end `r` of a read is the one that is expected, and the failover file is as it was.
  pub record Meets (r : Outcome E ConfigReadResult × W)
      (x : Outcome E ConfigReadResult × Option Text) (pinned : Option Text) : Type 0 where
    pub result : r.0 ≡ x.0
    pub left : c.held r.1 ≡ x.1
    pub file : c.pinned r.1 ≡ pinned

  recover-Meets :
      (e : E) (o h : Option Text) (w : W)
      → o ≡ h
      → c.held w ≡ h
      → Meets (recover hooks e (o, w)) (expected none (err e) h) (c.pinned w)
  unfolding expected recover
  recover-Meets e none none w p q = record { result = refl; left = q; file = refl }
  recover-Meets e (some t) (some u) w p q = record {
    result = ground (arith, p);
    left = c.report-held e w ∙ q;
    file = c.report-pinned e w;
  }
  recover-Meets e none (some t) w p q = cc
  recover-Meets e (some t) none w p q = cc

  fetch-Meets :
      (a : Outcome E (Option Text)) (w : W)
      → (a ≡ ok (some []) → Tidy)
      → Meets (after_fetch hooks (a, w)) (expected none a (c.held w)) (c.pinned w)
  unfolding expected after_fetch
  fetch-Meets (ok none) w t = record {
    result = refl;
    left = c.clear-held w;
    file = c.clear-pinned w;
  }
  fetch-Meets (ok (some [])) w t = record {
    result = refl;
    left = t refl w;
    file = c.save-pinned w [];
  }
  fetch-Meets (ok (some (x ∷ xs))) w t = record {
    result = refl;
    left = c.save-held w (x ∷ xs) refl;
    file = c.save-pinned w (x ∷ xs);
  }
  fetch-Meets (err e) w t =
      let m =
        recover-Meets e (hooks.read_snapshot_fallback w).0 (c.held w)
          (hooks.read_snapshot_fallback w).1 (c.reads_held w) (c.fallback-held w) in
      record { result = m.result; left = m.left; file = m.file ∙ c.fallback-pinned w }

  failover-Meets :
      (o p : Option Text) (w : W)
      → o ≡ p
      → c.pinned w ≡ p
      → ((hooks.fetch_from_server w).0 ≡ ok (some []) → Tidy)
      → Meets (after_failover hooks (o, w)) (expected p (hooks.fetch_from_server w).0 (c.held w)) p
  unfolding expected after_failover
  failover-Meets none none w e q t =
      let m = fetch-Meets (hooks.fetch_from_server w).0 (hooks.fetch_from_server w).1 t in
      rw (← c.fetch-held w)
        (record { result = m.result; left = m.left; file = m.file ∙ c.fetch-pinned w ∙ q })
  failover-Meets (some t) (some u) w e q _ = record {
    result = ground (arith, e);
    left = refl;
    file = q;
  }
  failover-Meets none (some t) w e q _ = cc
  failover-Meets (some t) none w e q _ = cc

  -- A read with disaster recovery returns what the order failover, server, snapshot demands of the
  -- copies and the server's answer, or throws the server's error where there is no copy. It leaves
  -- the snapshot that the specification states and the failover file as it was. Where the answer
  -- is the empty text, the hooks must drop every copy when the empty text is saved.
  pub read-Meets :
      (w : W)
      → (answer w ≡ ok (some []) → Tidy)
      → Meets
          (read_config_with_failover hooks w)
          (expected (c.pinned w) (answer w) (c.held w))
          (c.pinned w)
  unfolding read_config_with_failover
  read-Meets w t =
      let g = hooks.snapshot.get_failover w hooks.snapshot_key in
      rw (← c.failover-held w)
        (failover-Meets g.0 (c.pinned w) g.1 (c.reads_pinned w) (c.failover-pinned w) t)

  -- A read that the server answers with `o`, where no failover file is present, and then a read that
  -- the server fails: the second one returns `o` from the snapshot if `o` is a text that is not
  -- empty, and throws the error otherwise, so that a deleted configuration is not revived. The
  -- condition on the empty text is that of `read-Meets`.
  pub outage_after_read :
      (w : W) (o : Option Text) (e : E)
      → c.pinned w ≡ none
      → answer w ≡ ok o
      → (o ≡ some [] → Tidy)
      → answer (read_config_with_failover hooks w).1 ≡ err e
      → (read_config_with_failover hooks (read_config_with_failover hooks w).1).0
        ≡ (expected none (err e) (kept o)).0
  unfolding expected
  outage_after_read w o e p a t f =
      let m = read-Meets w (λ h. t (ground (arith, h, a))) in
      let w' = (read_config_with_failover hooks w).1 in
      let n = read-Meets w' (λ h. absurd (ground (arith, h, f))) in
      let q : c.pinned w' ≡ none = m.file ∙ p in
      let l : c.held w' ≡ kept o = rw (p, a) at m.left in rw (q, f, l) at n.result
