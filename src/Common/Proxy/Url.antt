-- ===== src/Common/Proxy/Url.antt =====
-- The proxy URL of crates/dbgflow-common/src/proxy.rs. A value is the list of its characters.
pub mod Accepted
use Prim.Native.String.{◌++◌}
use dbgflow.Prelude.{
  ℕ, ◌+◌, ◌*◌, ◌-◌, String, Bool, true, false, not, ◌&&◌, ◌||◌, Option, none, some, List, [], ◌∷◌,
  ◌==◌, ltb, leb, any, codes, contains_code, is_whitespace, is_some, if◌then◌else◌,
}
use dbgflow.Common.Error.{DbgFlowError, Result, ok, err, backend, ◌>>=◌}
use dbgflow.Common.Validation.{is_unsupported}

abbrev pub Text : Type 0
Text = List ℕ

unfoldable pub validate_proxy_value : Text → String → Result (Unit {0})
validate_proxy_value [] label = err (backend (label ++ " must not be empty"))
validate_proxy_value (c ∷ cs) label =
    if any is_unsupported (c ∷ cs)
    then err (backend (label ++ " contains unsupported control characters"))
    else ok tt

-- `strip_prefix`.
unfoldable pub strip_prefix : Text → Text → Option Text
strip_prefix [] value = some value
strip_prefix (p ∷ ps) [] = none
strip_prefix (p ∷ ps) (c ∷ cs) = let rest = strip_prefix ps cs in if c == p then rest else none

-- `find` and `split_once`: the texts before and after the first `sep`.
unfoldable pub split_first : ℕ → Text → Option (Text × Text)
split_first sep [] = none
split_first sep (c ∷ cs) =
    let rest = split_first sep cs in
    if c == sep
    then some ([], cs)
    else elim rest [ none ↦ none | some (before, after) ↦ some (c ∷ before, after) ]

-- `rsplit_once`: the texts before and after the last `sep`.
unfoldable pub split_last : ℕ → Text → Option (Text × Text)
split_last sep [] = none
split_last sep (c ∷ cs) = elim (split_last sep cs) [
  | some (before, after) ↦ some (c ∷ before, after)
  | none ↦ if c == sep then some ([], cs) else none
]

abbrev is_digit : ℕ → Bool
is_digit c = leb b'0' c && leb c b'9'

-- The value of digits, read after `n`.
unfoldable pub decimal_value : ℕ → Text → Option ℕ
decimal_value n [] = some n
decimal_value n (c ∷ cs) =
    let rest = decimal_value (n * 10 + (c - b'0')) cs in if is_digit c then rest else none

-- A prefix that is too large makes the number too large.
unfoldable pub digits_u16 : Text → Option ℕ
unfolding decimal_value
digits_u16 [] = none
digits_u16 (c ∷ cs) = elim (decimal_value 0 (c ∷ cs)) [
  | none ↦ none
  | some n ↦ if leb n 65535 then some n else none
]

-- `parse::<u16>()`: a `+` may stand before the digits, of which there is at least one.
unfoldable pub parse_u16 : Text → Option ℕ
unfolding digits_u16
parse_u16 [] = none
parse_u16 (c ∷ cs) = if c == b'+' then digits_u16 cs else digits_u16 (c ∷ cs)

abbrev missing_host : DbgFlowError
missing_host = backend "--proxy-url must include host and port"

unfoldable pub validate_proxy_port : Text → Result (Unit {0})
unfolding parse_u16
validate_proxy_port port = elim (parse_u16 port) [
  | none ↦ err (backend "--proxy-url port must be a nonzero u16")
  | some n ↦ if n == 0 then err (backend "--proxy-url port must be a nonzero u16") else ok tt
]

-- What stands after `]` of an address in brackets: a `:` and the port, or no port.
abbrev pub bracket_port : Text → Text
bracket_port [] = []
bracket_port (c ∷ cs) = if c == b':' then cs else []

unfoldable pub split_authority_host_port : Text → Result (Text × Text)
unfolding split_first split_last
split_authority_host_port authority = elim (strip_prefix (b'[' ∷ []) authority) [
  | some bracketed ↦ elim (split_first b']' bracketed) [
    | none ↦ err missing_host
    | some (host, after) ↦
        let port = bracket_port after in
        if contains_code b':' port then err missing_host else ok (host, port)
  ]
  | none ↦ elim (split_last b':' authority) [
    | none ↦ err missing_host
    | some (host, port) ↦ if contains_code b':' host then err missing_host else ok (host, port)
  ]
]

abbrev pub is_empty : Text → Bool
is_empty [] = true
is_empty (c ∷ cs) = false

abbrev pub scheme_rest : Text → Option Text
scheme_rest value = elim (strip_prefix (codes "http://") value) [
  | some rest ↦ some rest
  | none ↦ strip_prefix (codes "https://") value
]

-- The checks on what stands after the scheme.
unfoldable pub validate_authority : Text → Result Text
unfolding split_authority_host_port validate_proxy_port
validate_authority rest =
    if contains_code b'?' rest || contains_code b'#' rest
    then err (backend "--proxy-url must not include query or fragment")
    else if contains_code b'/' rest
    then err (backend "--proxy-url must not include a path")
    else if is_empty rest
    then err missing_host
    else if contains_code b'@' rest
    then err (backend "--proxy-url credentials are not supported for _NT_SYMBOL_PROXY")
    else (split_authority_host_port rest >>= λ (host, port).
        if is_empty host || is_empty port
        then err missing_host
        else (validate_proxy_port port >>= λ _. ok rest))

unfoldable pub symbol_proxy_from_url : Text → Result Text
unfolding validate_authority
symbol_proxy_from_url value =
    if any is_whitespace value
    then err (backend "--proxy-url must not contain whitespace")
    else elim (scheme_rest value) [
      | none ↦ err (backend "--proxy-url must use http:// or https://")
      | some rest ↦ validate_authority rest
    ]
