-- ===== src/Common/Proxy/Worker/Exact.antt =====
-- Which proxy variables a session worker sees.
use dbgflow.Prelude.{
  ℕ, ◌≡◌, refl, ap, sym, ◌∙◌, Bool, true, false, not, ◌&&◌, Option, none, some, List, [], ◌∷◌, ◌++◌,
  any, is_some, arith, ◌==◌, ==_iff, if◌then◌else◌,
}
use dbgflow.Common.Error.{ok, bind_ok}
use dbgflow.Common.Proxy.Url.{Text, validate_proxy_value, symbol_proxy_from_url}
use dbgflow.Common.Proxy.Pairs.{Agrees, from_environment_map-Agrees}
use dbgflow.Common.Proxy.{
  from_cli_proxy_url, from_environment_map, no_vars, Key, symbol_proxy, http_proxy, https_proxy,
  all_proxy, no_proxy, lower_http_proxy, lower_https_proxy, lower_all_proxy, lower_no_proxy,
  same_key, Vars, set_var, ProxyEnvironment, ProxySource, cli, environment, disabled_source,
  none_source, number, removed_keys, keep, all_proxy_keys,
}
use dbgflow.Common.Proxy.Worker.{
  EnvChange, remove_var, set, upper, unset_var, apply_env_changes, sorted_keys, env_vars,
  remove_all, proxy_env_changes,
}

-- A variable and its lower-case form have one value.
abbrev pub IsPaired : Vars → Type 0
IsPaired vars = (k : Key) → vars k ≡ vars (upper k)

apply-append :
    (cs ds : List EnvChange) (env : Vars)
    → apply_env_changes (cs ++ ds) env ≡ apply_env_changes ds (apply_env_changes cs env)
unfolding apply_env_changes
apply-append [] ds env = refl
apply-append (set k v ∷ cs) ds env = apply-append cs ds (set_var (upper k) v env)
apply-append (remove_var k ∷ cs) ds env = apply-append cs ds (unset_var (upper k) env)

apply-remove_all :
    (ks : List Key) (env : Vars) (u : Key)
    → apply_env_changes (remove_all ks) env u
      ≡ (if any (λ k. same_key (upper k) u) ks then none else env u)
unfolding apply_env_changes remove_all
apply-remove_all [] env u = refl
apply-remove_all (k ∷ ks) env u = ground (arith, apply-remove_all ks (unset_var (upper k) env) u)

apply-env_vars :
    (ks : List Key) (vars env : Vars) (u : Key)
    → ((k : Key) → same_key (upper k) u ≡ true → vars k ≡ vars u)
    → apply_env_changes (env_vars ks vars) env u
      ≡ (if any (λ k. same_key (upper k) u && is_some (vars k)) ks then vars u else env u)
unfolding apply_env_changes env_vars
apply-env_vars [] vars env u h = refl
apply-env_vars (k ∷ ks) vars env u h = go (vars k) refl (λ e. apply-env_vars ks vars e u h)
  where
    go :
        (r : Option (List ℕ))
        → vars k ≡ r
        → ((e : Vars)
            → apply_env_changes (env_vars ks vars) e u
              ≡ (if any (λ k. same_key (upper k) u && is_some (vars k)) ks then vars u else e u))
        → apply_env_changes (env_vars (k ∷ ks) vars) env u
          ≡ (if any (λ k. same_key (upper k) u && is_some (vars k)) (k ∷ ks) then vars u else env u)
    go none e rest = ground (arith, rest env)
    go (some x) e rest = rw e (ground (arith, rest (set_var (upper k) x env), h k))

any-keep : (p q : Key → Bool) (ks : List Key) → any q (keep p ks) ≡ any (λ k. p k && q k) ks
any-keep p q [] = refl
any-keep p q (k ∷ ks) = ground (arith, any-keep p q ks)

abbrev key_of : ℕ → Key
key_of n =
    if n == 0
    then symbol_proxy
    else if n == 1
    then http_proxy
    else if n == 2
    then https_proxy
    else if n == 3
    then all_proxy
    else if n == 4
    then no_proxy
    else if n == 5
    then lower_http_proxy
    else if n == 6
    then lower_https_proxy
    else if n == 7
    then lower_all_proxy
    else lower_no_proxy

key_of-number : (k : Key) → key_of (number k) ≡ k
key_of-number symbol_proxy = refl
key_of-number _ = refl

same_key-≡ : (j k : Key) → same_key j k ≡ true → j ≡ k
same_key-≡ j k h =
    sym (key_of-number j) ∙ ap key_of ((==_iff (number j) (number k)).0 h) ∙ key_of-number k

paired_at :
    (vars : Vars) (u k : Key) → IsPaired vars → same_key (upper k) u ≡ true → vars k ≡ vars u
paired_at vars u k paired same = paired k ∙ ap vars (same_key-≡ (upper k) u same)

-- The environment's own proxies are in force: they come from the command line or the environment.
abbrev pub is_set : ProxySource → Bool
is_set cli = true
is_set environment = true
is_set _ = false

removed_keys-keep :
    (s : ProxySource) (vars : Vars)
    → is_set s ≡ true
    → removed_keys (record { source = s; vars = vars })
      ≡ keep (λ k. not (is_some (vars k))) all_proxy_keys
unfolding removed_keys
removed_keys-keep cli vars h = refl
removed_keys-keep environment vars h = refl
removed_keys-keep disabled_source vars h = absurd (ground arith)
removed_keys-keep none_source vars h = absurd (ground arith)

-- A variable is removed if it is not set, and set if it is.
settled :
    (vars env : Vars) (u : Key)
    → IsPaired vars
    → (if any (λ k. same_key (upper k) (upper u) && is_some (vars k)) sorted_keys
        then vars (upper u)
        else if any (λ k. not (is_some (vars k)) && same_key (upper k) (upper u)) all_proxy_keys
        then none
        else env (upper u))
      ≡ vars u
settled vars env symbol_proxy paired = ground arith
settled vars env u paired = ground (arith, paired u)

exact :
    (e : ProxyEnvironment) (env : Vars) (u : Key)
    → IsPaired e.vars
    → is_set e.source ≡ true
    → apply_env_changes (proxy_env_changes e) env (upper u) ≡ e.vars u
unfolding proxy_env_changes
exact e env u paired own =
    ap (λ (f : Vars). f (upper u))
      (apply-append (remove_all gone) (env_vars sorted_keys e.vars) env)
    ∙ apply-env_vars sorted_keys e.vars (apply_env_changes (remove_all gone) env) (upper u)
        (λ k. paired_at e.vars (upper u) k paired)
    ∙ rw
        (
          apply-remove_all gone env (upper u),
          removed_keys-keep e.source e.vars own,
          any-keep (λ k. not (is_some (e.vars k))) (λ k. same_key (upper k) (upper u))
              all_proxy_keys,
        )
        (settled e.vars env u paired)
  where
    gone : List Key
    gone = removed_keys e

-- An environment of proxies that one of the two constructors has made.
pub data Configured (e : ProxyEnvironment) : Type 0 where
  by_url : (value : Text) → from_cli_proxy_url value ≡ ok e → Configured e
  by_environment : (env : Vars) → from_environment_map env ≡ ok e → Configured e

url-IsPaired :
    (value : Text) (e : ProxyEnvironment) → from_cli_proxy_url value ≡ ok e → IsPaired e.vars
unfolding from_cli_proxy_url
url-IsPaired value e h k =
    let (_, _, h₁) = bind_ok (validate_proxy_value value "--proxy-url") _ e h in
    let (authority, _, h₂) = bind_ok (symbol_proxy_from_url value) _ e h₁ in both k authority h₂
  where
    both :
        (k : Key) (authority : Text)
        → ok (record {
          source = cli;
          vars = set_var lower_https_proxy value (
              set_var lower_http_proxy value (
                set_var https_proxy value
                  (set_var http_proxy value (set_var symbol_proxy authority no_vars))));
        })
          ≡ ok e
        → e.vars k ≡ e.vars (upper k)
    both symbol_proxy authority h = refl
    both k authority h = ground arith

environment-IsPaired :
    (env : Vars) (e : ProxyEnvironment) → from_environment_map env ≡ ok e → IsPaired e.vars
environment-IsPaired env e h = each
  where
    agrees : Agrees env e.vars
    agrees = from_environment_map-Agrees env e h

    each : (k : Key) → e.vars k ≡ e.vars (upper k)
    each symbol_proxy = refl
    each k = agrees.0 k refl ∙ sym (agrees.0 (upper k) refl)

-- When the proxies come from the command line or from the environment, a session worker sees
-- exactly them: each proxy variable has the value that was configured, in both spellings, and one
-- that was not configured is gone, whatever the parent's environment has.
pub proxy_env_changes-exact :
    (e : ProxyEnvironment)
    → Configured e
    → is_set e.source ≡ true
    → (env : Vars) (u : Key) → apply_env_changes (proxy_env_changes e) env (upper u) ≡ e.vars u
proxy_env_changes-exact e (by_url value h) own env u = exact e env u (url-IsPaired value e h) own
proxy_env_changes-exact e (by_environment from h) own env u =
    exact e env u (environment-IsPaired from e h) own
