-- ===== src/Naming/Client/Beats.antt =====
-- The heart beats of the instances that a naming client registers over HTTP.
use nacos_sdk_nodejs.Prelude.{
  ℕ, ◌≡◌, refl, ◌∙◌, ap, true, false, Option, none, some, Text, Outcome, ok, err, [], ◌∷◌, arith,
}
use nacos_sdk_nodejs.Prelude.Dict
use nacos_sdk_nodejs.Prelude.Dict.{Dict, get-set_self, get-delete_self}
use nacos_sdk_nodejs.Prelude.Emitter.{has_listener}
use nacos_sdk_nodejs.Naming.Names.{get_grouped_name}
use nacos_sdk_nodejs.Naming.Instance.{InstanceOptions, Instance, new_instance}
use nacos_sdk_nodejs.Naming.BeatReactor.{
  Reactor, Reach, next, adds, asleep, new_reactor, build_key, woke, add_beat_info, remove_beat_info,
}
use nacos_sdk_nodejs.Naming.BeatReactor.Rounds.{values, round_beats_all}
use nacos_sdk_nodejs.Naming.Client.{
  NamingTransport, Client, register_instance, deregister_instance, with_beat, without_beat, ended,
  beat_of,
}

values-set_self : (k : Text) (i : ℕ) (d : Dict ℕ) → has_listener i (values (Dict.set k i d)) ≡ true
unfolding has_listener Dict.set
values-set_self k i [] = ground arith
values-set_self k i ((j, w) ∷ d) = ground (arith, values-set_self k i d)

beat_added :
    (name : Text) (i : Instance) (r : Reactor) (b : Option Reactor)
    → b ≡ some r
    → i.ephemeral ≡ true
    → with_beat name i b ≡ some (add_beat_info name (beat_of name i) r)
unfolding with_beat
beat_added name i r b e h = rw (e, h) refl

module _ {S E : Type 0} (transport : NamingTransport S E) where
  ended-beats :
      (o : Outcome E Text × S) (b : Option Reactor) → (ended transport o b).1.beat_reactor ≡ b
  ended-beats (ok t, s) b = refl
  ended-beats (err e, s) b = refl

  -- Over HTTP, an ephemeral instance that is registered while the reactor sleeps gets its heart beat
  -- in the next round, under the service's grouped name and with the instance's address, whether or
  -- not the server took the registration.
  pub registered_is_beaten :
      (service_name group_name : Text) (options : InstanceOptions) (c : Client S) (r : Reactor)
      → c.beat_reactor ≡ some r
      → Reach new_reactor r
      → r.phase ≡ asleep
      → r.is_closed ≡ false
      → (new_instance options).ephemeral ≡ true
      → (r' : Reactor) × ((register_instance transport service_name options group_name
            c).1.beat_reactor
          ≡ some r')
        × (has_listener r.count (woke r').round ≡ true)
        × (r'.infos r.count
            ≡ beat_of (get_grouped_name service_name group_name) (new_instance options))
  unfolding register_instance add_beat_info
  registered_is_beaten service_name group_name options c r e q a o h =
      let name = get_grouped_name service_name group_name in
      let b = beat_of name (new_instance options) in
      let r' = add_beat_info name b r in
      (
        r',
        ended-beats _ _ ∙ beat_added name (new_instance options) r c.beat_reactor e h,
        round_beats_all r.count (next q (adds name b)) a o
            ∙ values-set_self (build_key name b.ip b.port) r.count r.dom2beat,
        ground arith,
      )

  -- After an instance is deregistered over HTTP, whatever the server answers, no heart beat is kept
  -- under its key.
  pub deregistered_is_dropped :
      (service_name group_name : Text) (options : InstanceOptions) (c : Client S) (r : Reactor)
      → c.beat_reactor ≡ some r
      → (r' : Reactor) × ((deregister_instance transport service_name options group_name
            c).1.beat_reactor
          ≡ some r')
        × (Dict.get
              (build_key (get_grouped_name service_name group_name) options.ip options.port)
              r'.dom2beat
            ≡ none)
  unfolding deregister_instance without_beat new_instance remove_beat_info
  deregistered_is_dropped service_name group_name options c r e =
      let name = get_grouped_name service_name group_name in
      (
        remove_beat_info name options.ip options.port r,
        ended-beats _ _ ∙ ap (without_beat name (new_instance options)) e,
        get-delete_self (build_key name options.ip options.port) r.dom2beat,
      )
