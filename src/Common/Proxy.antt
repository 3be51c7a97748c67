-- ===== src/Common/Proxy.antt =====
-- crates/dbgflow-common/src/proxy.rs. Of the environment only the nine proxy variables are read, so
-- that a map is a function of them.
pub mod Url
pub mod Pairs
pub mod Worker
use Prim.Native.String.{◌++◌}
use dbgflow.Prelude.{
  ℕ, ◌+◌, ◌*◌, ◌-◌, String, Bool, true, false, not, ◌&&◌, ◌||◌, Option, none, some, List, [], ◌∷◌,
  ◌==◌, ltb, leb, any, codes, contains_code, is_whitespace, is_some, if◌then◌else◌,
}
use dbgflow.Common.Error.{DbgFlowError, Result, ok, err, backend, ◌>>=◌}
use dbgflow.Common.Validation.{is_unsupported}
use dbgflow.Common.Proxy.Url.{Text, validate_proxy_value, symbol_proxy_from_url}

pub data Key : Type 0 where
  symbol_proxy http_proxy https_proxy all_proxy no_proxy : Key
  lower_http_proxy lower_https_proxy lower_all_proxy lower_no_proxy : Key

abbrev pub all_proxy_keys : List Key
all_proxy_keys =
    symbol_proxy ∷ http_proxy ∷ https_proxy ∷ all_proxy ∷ no_proxy ∷ lower_http_proxy
    ∷ lower_https_proxy ∷ lower_all_proxy ∷ lower_no_proxy ∷ []

abbrev pub number : Key → ℕ
number symbol_proxy = 0
number http_proxy = 1
number https_proxy = 2
number all_proxy = 3
number no_proxy = 4
number lower_http_proxy = 5
number lower_https_proxy = 6
number lower_all_proxy = 7
number lower_no_proxy = 8

abbrev pub same_key : Key → Key → Bool
same_key k j = number k == number j

abbrev pub Vars : Type 0
Vars = Key → Option Text

abbrev pub no_vars : Vars
no_vars k = none

abbrev pub set_var : Key → Text → Vars → Vars
set_var k value vars j = if same_key k j then some value else vars j

pub data ProxySource : Type 0 where
  cli environment disabled_source none_source : ProxySource

pub record ProxyEnvironment : Type 0 where
  pub source : ProxySource
  pub vars : Vars

abbrev pub no_proxy_environment : ProxyEnvironment
no_proxy_environment = record { source = none_source; vars = no_vars }

abbrev pub disabled : ProxyEnvironment
disabled = record { source = disabled_source; vars = no_vars }

abbrev pub key_name : Key → String
key_name symbol_proxy = "_NT_SYMBOL_PROXY"
key_name http_proxy = "HTTP_PROXY"
key_name https_proxy = "HTTPS_PROXY"
key_name all_proxy = "ALL_PROXY"
key_name no_proxy = "NO_PROXY"
key_name lower_http_proxy = "http_proxy"
key_name lower_https_proxy = "https_proxy"
key_name lower_all_proxy = "all_proxy"
key_name lower_no_proxy = "no_proxy"

unfoldable pub from_cli_proxy_url : Text → Result ProxyEnvironment
unfolding validate_proxy_value symbol_proxy_from_url
from_cli_proxy_url value = validate_proxy_value value "--proxy-url" >>= λ _.
    symbol_proxy_from_url value >>= λ authority. ok (record {
      source = cli;
      vars = set_var lower_https_proxy value (
          set_var lower_http_proxy value (
            set_var https_proxy value
              (set_var http_proxy value (set_var symbol_proxy authority no_vars))));
    })

-- The value of a variable, else of its lower-case form, if it has one.
abbrev pub env_value : Vars → Key → Option Key → Option Text
env_value env upper lower = elim (env upper) [
  | some value ↦ some value
  | none ↦ elim lower [ none ↦ none | some key ↦ env key ]
]

abbrev pub set_lower : Option Key → Text → Vars → Vars
set_lower none value vars = vars
set_lower (some lower) value vars = set_var lower value vars

unfoldable pub insert_env_pair : Vars → Vars → Key → Option Key → Result Vars
unfolding validate_proxy_value
insert_env_pair env vars upper lower = elim (env_value env upper lower) [
  | none ↦ ok vars
  | some value ↦ validate_proxy_value value (key_name upper) >>= λ _.
      ok (set_lower lower value (set_var upper value vars))
]

-- The symbol proxy of the first of the keys whose value gives one.
unfoldable pub derive_from : List Key → Vars → Vars
derive_from [] vars = vars
derive_from (key ∷ keys) vars =
    let rest = derive_from keys vars in
    elim (vars key) [
      | none ↦ rest
      | some value ↦ elim (symbol_proxy_from_url value) [
        | err _ ↦ rest
        | ok authority ↦ set_var symbol_proxy authority vars
      ]
    ]

unfoldable pub derive_symbol_proxy_from_network_proxy : Vars → Vars
unfolding derive_from
derive_symbol_proxy_from_network_proxy vars =
    if is_some (vars symbol_proxy)
    then vars
    else derive_from (https_proxy ∷ http_proxy ∷ all_proxy ∷ []) vars

abbrev pub has_none : Vars → Bool
has_none vars = not (any (λ k. is_some (vars k)) all_proxy_keys)

unfoldable pub from_environment_map : Vars → Result ProxyEnvironment
unfolding insert_env_pair derive_symbol_proxy_from_network_proxy
from_environment_map env = insert_env_pair env no_vars symbol_proxy none >>= λ v₁.
    insert_env_pair env v₁ http_proxy (some lower_http_proxy) >>= λ v₂.
    insert_env_pair env v₂ https_proxy (some lower_https_proxy) >>= λ v₃.
    insert_env_pair env v₃ all_proxy (some lower_all_proxy) >>= λ v₄.
    insert_env_pair env v₄ no_proxy (some lower_no_proxy) >>= λ v₅.
    (let vars = derive_symbol_proxy_from_network_proxy v₅ in
      if has_none vars
      then ok no_proxy_environment
      else ok (record { source = environment; vars = vars }))

abbrev pub keep : (Key → Bool) → List Key → List Key
keep p [] = []
keep p (k ∷ ks) = let rest = keep p ks in if p k then k ∷ rest else rest

unfoldable pub removed_keys : ProxyEnvironment → List Key
removed_keys e = elim e.source [
  | none_source ↦ []
  | disabled_source ↦ all_proxy_keys
  | cli ↦ keep (λ k. not (is_some (e.vars k))) all_proxy_keys
  | environment ↦ keep (λ k. not (is_some (e.vars k))) all_proxy_keys
]

unfoldable pub proxy_keys : ProxyEnvironment → List Key
proxy_keys e =
    keep (λ k. is_some (e.vars k))
      (symbol_proxy ∷ http_proxy ∷ https_proxy ∷ all_proxy ∷ no_proxy ∷ [])
