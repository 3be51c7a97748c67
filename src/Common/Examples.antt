-- ===== src/Common/Examples.antt =====
-- Runs of the theorems on the job slot and the proxies.
use dbgflow.Prelude.{
  ◌≡◌, some, refl, ◌⊎◌, ◌++◌, false, any, codes, is_whitespace, ℕ, String, [], ◌∷◌,
}
use dbgflow.Common.Error.{ok}
use dbgflow.Common.Validation.{is_unsupported}
use dbgflow.Common.Proxy.{
  environment, symbol_proxy, https_proxy, lower_https_proxy, Vars, no_vars, set_var,
  ProxyEnvironment, from_environment_map,
}
use dbgflow.Common.Proxy.Url.{Text, symbol_proxy_from_url, strip_prefix}
use dbgflow.Common.Proxy.Url.Accepted.{IsHostPort, symbol_proxy_from_url-IsHostPort}
use dbgflow.Common.Proxy.Worker.{apply_env_changes, proxy_env_changes}
use dbgflow.Common.Proxy.Worker.Exact.{by_environment, proxy_env_changes-exact}
use dbgflow.Common.Job.{start}
use dbgflow.Common.Job.Exclusion.{Slot, Reach, idle, later, started, refused, Owns, Reach-Owns}

abbrev busy : ℕ → String
busy _ = "busy"

-- Job 3 starts, job 4 is refused.
abbrev working : Slot
working = record { active = some 3; held = record { id = 3 } ∷ [] }

Reach-working : Reach busy working
unfolding start
Reach-working =
    later (later idle (started 3 (record { id = 3 }) (some 3) refl refl))
      (refused 4 _ (some 3) refl refl)

Reach-Owns_example : Owns working.held working.active
Reach-Owns_example = Reach-Owns Reach-working

abbrev url : Text
url = codes "http://h:80"

-- An environment that has only `https_proxy`.
abbrev parent : Vars
parent = set_var lower_https_proxy url no_vars

abbrev taken : ProxyEnvironment
taken = record {
  source = environment;
  vars =
      set_var symbol_proxy (codes "h:80")
        (set_var lower_https_proxy url (set_var https_proxy url no_vars));
}

url_accepted : symbol_proxy_from_url url ≡ ok (codes "h:80")
unfolding symbol_proxy_from_url is_whitespace strip_prefix
url_accepted = refl

parent_gives : from_environment_map parent ≡ ok taken
unfolding from_environment_map symbol_proxy_from_url is_unsupported is_whitespace strip_prefix
parent_gives = refl

symbol_proxy_from_url-IsHostPort_example :
    ((url ≡ codes "http://" ++ codes "h:80") ⊎ (url ≡ codes "https://" ++ codes "h:80"))
    × (any is_whitespace url ≡ false)
    × IsHostPort (codes "h:80")
symbol_proxy_from_url-IsHostPort_example =
    symbol_proxy_from_url-IsHostPort url (codes "h:80") url_accepted

proxy_env_changes-exact_example :
    apply_env_changes (proxy_env_changes taken) parent https_proxy ≡ some url
proxy_env_changes-exact_example =
    proxy_env_changes-exact taken (by_environment parent parent_gives) refl parent https_proxy
