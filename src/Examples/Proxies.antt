-- ===== src/Examples/Proxies.antt =====
-- Servers that answer by their name: the one of `b` is up.
use nacos_sdk_nodejs.Prelude.{
  ◌≡◌, refl, Bool, true, false, none, Text, text_eq, codes, ok, err, [], ◌∷◌, if◌then◌else◌, arith,
}
use nacos_sdk_nodejs.Naming.Proxy.{ProxyEnv, req_api, call_server, includes_colon}
use nacos_sdk_nodejs.Naming.Proxy.Rounds.{RandomInRange, is_ok, one_up_suffices}

-- whether a URL is one of server `b`
abbrev is_up : Text → Bool
is_up url = text_eq url (codes "http://b:8848/x")

abbrev env : ProxyEnv
env = record {
  Net = Unit {0};
  HttpError = Unit {0};
  request = λ n url method params.
      (if is_up url then ok (record { status = 200; body = codes "yes" }) else err tt, n);
  random = λ n k. 0;
  ssl = false;
  username = [];
  password = [];
  namespace = codes "public";
}

abbrev x : Text
x = codes "/x"

abbrev get : Text
get = codes "GET"

always_zero : RandomInRange env
always_zero net n h = h

one_up_suffices_example :
    is_ok (req_api env (codes "a" ∷ codes "b" ∷ []) [] none x [] get tt).0 ≡ true
unfolding call_server includes_colon text_eq
one_up_suffices_example =
    one_up_suffices env always_zero (codes "a") (codes "b" ∷ []) [] none x [] get tt 1 (omega arith)
      (λ n. refl)
