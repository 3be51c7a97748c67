-- ===== src/Common/Proxy/Worker.antt =====
-- The proxy variables of a session worker: `proxy_env_changes` of
-- crates/dbgflow-debug/src/session/worker.rs and `apply_env_changes` of
-- crates/dbgflow-common/src/process.rs, which looks a variable up by its upper-case name.
pub mod Exact
use dbgflow.Prelude.{Option, none, some, List, [], ◌∷◌, ◌++◌, map, if◌then◌else◌}
use dbgflow.Common.Proxy.{
  Key, symbol_proxy, http_proxy, https_proxy, all_proxy, no_proxy, lower_http_proxy,
  lower_https_proxy, lower_all_proxy, lower_no_proxy, same_key, Vars, set_var, ProxyEnvironment,
  removed_keys,
}
use dbgflow.Common.Proxy.Url.{Text}

pub data EnvChange : Type 0 where
  remove_var : Key → EnvChange
  set : Key → Text → EnvChange

-- `to_ascii_uppercase`.
abbrev pub upper : Key → Key
upper lower_http_proxy = http_proxy
upper lower_https_proxy = https_proxy
upper lower_all_proxy = all_proxy
upper lower_no_proxy = no_proxy
upper key = key

abbrev pub unset_var : Key → Vars → Vars
unset_var k vars j = if same_key k j then none else vars j

unfoldable pub apply_env_changes : List EnvChange → Vars → Vars
apply_env_changes [] env = env
apply_env_changes (set key value ∷ changes) env =
    apply_env_changes changes (set_var (upper key) value env)
apply_env_changes (remove_var key ∷ changes) env =
    apply_env_changes changes (unset_var (upper key) env)

-- The order of the keys in a `BTreeMap`.
abbrev pub sorted_keys : List Key
sorted_keys =
    all_proxy ∷ https_proxy ∷ http_proxy ∷ no_proxy ∷ symbol_proxy ∷ lower_all_proxy
    ∷ lower_http_proxy ∷ lower_https_proxy ∷ lower_no_proxy ∷ []

unfoldable pub env_vars : List Key → Vars → List EnvChange
env_vars [] vars = []
env_vars (key ∷ keys) vars =
    let rest = env_vars keys vars in
    elim (vars key) [ none ↦ rest | some value ↦ set key value ∷ rest ]

unfoldable pub remove_all : List Key → List EnvChange
remove_all [] = []
remove_all (key ∷ keys) = remove_var key ∷ remove_all keys

unfoldable pub proxy_env_changes : ProxyEnvironment → List EnvChange
unfolding env_vars remove_all removed_keys
proxy_env_changes e = remove_all (removed_keys e) ++ env_vars sorted_keys e.vars
