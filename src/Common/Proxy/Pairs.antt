-- ===== src/Common/Proxy/Pairs.antt =====
-- The variables that crates/dbgflow-common/src/proxy.rs takes from an environment.
use dbgflow.Prelude.{
  ◌≡◌, refl, ap, sym, ◌∙◌, Bool, true, false, ◌||◌, Option, none, some, List, [], ◌∷◌, is_some,
  arith, if◌then◌else◌, Bool-cases, inl, inr,
}
use dbgflow.Common.Error.{ok, bind_ok}
use dbgflow.Common.Proxy.{
  Key, symbol_proxy, http_proxy, https_proxy, all_proxy, no_proxy, lower_http_proxy,
  lower_https_proxy, lower_all_proxy, lower_no_proxy, same_key, Vars, no_vars, set_var, env_value,
  set_lower, insert_env_pair, derive_from, derive_symbol_proxy_from_network_proxy, has_none,
  no_proxy_environment, environment, ProxyEnvironment, from_environment_map,
}
use dbgflow.Common.Proxy.Url.{Text}

abbrev touches : Key → Option Key → Key → Bool
touches upper none j = same_key upper j
touches upper (some lower) j = same_key upper j || same_key lower j

abbrev written : Bool → Option Text → Option Text → Option Text
written false r old = old
written true none old = old
written true (some x) old = some x

abbrev placed : Option Text → Key → Option Key → Vars → Vars
placed none upper lower vars = vars
placed (some x) upper lower vars = set_lower lower x (set_var upper x vars)

placed-at :
    (r : Option Text) (upper : Key) (lower : Option Key) (vars : Vars) (j : Key)
    → placed r upper lower vars j ≡ written (touches upper lower j) r (vars j)
placed-at none upper lower vars j = ground arith
placed-at (some x) upper none vars j = ground arith
placed-at (some x) upper (some lower) vars j = ground arith

insert_env_pair-placed :
    (env vars v : Vars) (upper : Key) (lower : Option Key)
    → insert_env_pair env vars upper lower ≡ ok v
    → v ≡ placed (env_value env upper lower) upper lower vars
unfolding insert_env_pair
insert_env_pair-placed env vars v upper lower h = go (env_value env upper lower) refl
  where
    go :
        (r : Option Text)
        → env_value env upper lower ≡ r
        → v ≡ placed (env_value env upper lower) upper lower vars
    go none e = ground arith
    go (some x) e = ground arith

insert_env_pair-at :
    (env vars v : Vars) (upper : Key) (lower : Option Key)
    → insert_env_pair env vars upper lower ≡ ok v
    → (j : Key) → v j ≡ written (touches upper lower j) (env_value env upper lower) (vars j)
insert_env_pair-at env vars v upper lower h j =
    ap (λ (f : Vars). f j) (insert_env_pair-placed env vars v upper lower h)
    ∙ placed-at (env_value env upper lower) upper lower vars j

derive_from-at :
    (keys : List Key) (vars : Vars) (k : Key)
    → same_key symbol_proxy k ≡ false
    → derive_from keys vars k ≡ vars k
unfolding derive_from
derive_from-at [] vars k h = refl
derive_from-at (key ∷ keys) vars k h = ground (arith, derive_from-at keys vars k)

-- What the environment says of a variable: its value, else that of its lower-case form.
abbrev pub wanted : Vars → Key → Option Text
wanted env symbol_proxy = env symbol_proxy
wanted env http_proxy = env_value env http_proxy (some lower_http_proxy)
wanted env lower_http_proxy = env_value env http_proxy (some lower_http_proxy)
wanted env https_proxy = env_value env https_proxy (some lower_https_proxy)
wanted env lower_https_proxy = env_value env https_proxy (some lower_https_proxy)
wanted env all_proxy = env_value env all_proxy (some lower_all_proxy)
wanted env lower_all_proxy = env_value env all_proxy (some lower_all_proxy)
wanted env no_proxy = env_value env no_proxy (some lower_no_proxy)
wanted env lower_no_proxy = env_value env no_proxy (some lower_no_proxy)

written_first : (r : Option Text) → written true r none ≡ r
written_first none = refl
written_first (some x) = refl

collected :
    (env v₁ v₂ v₃ v₄ v₅ : Vars)
    → insert_env_pair env no_vars symbol_proxy none ≡ ok v₁
    → insert_env_pair env v₁ http_proxy (some lower_http_proxy) ≡ ok v₂
    → insert_env_pair env v₂ https_proxy (some lower_https_proxy) ≡ ok v₃
    → insert_env_pair env v₃ all_proxy (some lower_all_proxy) ≡ ok v₄
    → insert_env_pair env v₄ no_proxy (some lower_no_proxy) ≡ ok v₅
    → (k : Key) → v₅ k ≡ wanted env k
collected env v₁ v₂ v₃ v₄ v₅ a b c d e = each
  where
    at₁ :
        (k : Key)
        → v₁ k ≡ written (touches symbol_proxy none k) (env_value env symbol_proxy none) none
    at₁ k = insert_env_pair-at env no_vars v₁ symbol_proxy none a k

    at₂ :
        (k : Key)
        → v₂ k
          ≡ written
              (touches http_proxy (some lower_http_proxy) k)
              (env_value env http_proxy (some lower_http_proxy))
              (v₁ k)
    at₂ k = insert_env_pair-at env v₁ v₂ http_proxy (some lower_http_proxy) b k

    at₃ :
        (k : Key)
        → v₃ k
          ≡ written
              (touches https_proxy (some lower_https_proxy) k)
              (env_value env https_proxy (some lower_https_proxy))
              (v₂ k)
    at₃ k = insert_env_pair-at env v₂ v₃ https_proxy (some lower_https_proxy) c k

    at₄ :
        (k : Key)
        → v₄ k
          ≡ written
              (touches all_proxy (some lower_all_proxy) k)
              (env_value env all_proxy (some lower_all_proxy))
              (v₃ k)
    at₄ k = insert_env_pair-at env v₃ v₄ all_proxy (some lower_all_proxy) d k

    at₅ :
        (k : Key)
        → v₅ k
          ≡ written
              (touches no_proxy (some lower_no_proxy) k)
              (env_value env no_proxy (some lower_no_proxy))
              (v₄ k)
    at₅ k = insert_env_pair-at env v₄ v₅ no_proxy (some lower_no_proxy) e k

    each : (k : Key) → v₅ k ≡ wanted env k
    each symbol_proxy = ground (
      arith,
      at₁ symbol_proxy,
      at₂ symbol_proxy,
      at₃ symbol_proxy,
      at₄ symbol_proxy,
      at₅ symbol_proxy,
    )
    each k = ground (arith, at₁ k, at₂ k, at₃ k, at₄ k, at₅ k)

-- The variables that were collected, with the symbol proxy that was derived.
abbrev pub Agrees : Vars → Vars → Type 0
Agrees env vars =
    ((k : Key) → same_key symbol_proxy k ≡ false → vars k ≡ wanted env k)
    × (is_some (env symbol_proxy) ≡ true → vars symbol_proxy ≡ env symbol_proxy)

derived-Agrees :
    (env vars : Vars)
    → ((k : Key) → vars k ≡ wanted env k)
    → Agrees env (derive_symbol_proxy_from_network_proxy vars)
unfolding derive_symbol_proxy_from_network_proxy
derived-Agrees env vars h = (
  λ k other.
      ground (arith, h k, derive_from-at (https_proxy ∷ http_proxy ∷ all_proxy ∷ []) vars k other),
  λ given. ground (arith, h symbol_proxy),
)

-- Without any variable the environment has none.
none_left : (vars : Vars) → has_none vars ≡ true → (k : Key) → vars k ≡ none
none_left vars h symbol_proxy = ground arith
none_left vars h k = ground arith

ended :
    (env vars : Vars) (e : ProxyEnvironment)
    → (if has_none vars
        then ok no_proxy_environment
        else ok (record { source = environment; vars = vars }))
      ≡ ok e
    → Agrees env vars
    → Agrees env e.vars
ended env vars e h agrees =
    (λ k other. same k ∙ agrees.0 k other, λ given. same symbol_proxy ∙ agrees.1 given)
  where
    same : (k : Key) → e.vars k ≡ vars k
    same k = elim (Bool-cases (has_none vars)) [
      | inl empty ↦
          let is_e : no_proxy_environment ≡ e = ground arith in
          ap (λ (x : ProxyEnvironment). x.vars k) (sym is_e) ∙ sym (none_left vars empty k)
      | inr some_set ↦
          let is_e : record { source = environment; vars = vars } ≡ e = ground arith in
          ap (λ (x : ProxyEnvironment). x.vars k) (sym is_e)
    ]

pub from_environment_map-Agrees :
    (env : Vars) (e : ProxyEnvironment) → from_environment_map env ≡ ok e → Agrees env e.vars
unfolding from_environment_map
from_environment_map-Agrees env e h =
    let (v₁, a, h₁) = bind_ok (insert_env_pair env no_vars symbol_proxy none) _ e h in
    let (v₂, b, h₂) = bind_ok (insert_env_pair env v₁ http_proxy (some lower_http_proxy)) _ e h₁ in
    let (v₃, c, h₃) =
      bind_ok (insert_env_pair env v₂ https_proxy (some lower_https_proxy)) _ e h₂ in
    let (v₄, d, h₄) = bind_ok (insert_env_pair env v₃ all_proxy (some lower_all_proxy)) _ e h₃ in
    let (v₅, f, h₅) = bind_ok (insert_env_pair env v₄ no_proxy (some lower_no_proxy)) _ e h₄ in
    ended env (derive_symbol_proxy_from_network_proxy v₅) e h₅
      (derived-Agrees env v₅ (collected env v₁ v₂ v₃ v₄ v₅ a b c d f))
