-- ===== src/Common/Proxy/Url/Accepted.antt =====
-- The proxy URLs that crates/dbgflow-common/src/proxy.rs accepts.
use dbgflow.Prelude.{
  ℕ, ◌≡◌, refl, ◌⊎◌, inl, inr, ◌≤◌, false, ◌||◌, Option, none, some, [], ◌∷◌, ◌++◌, any, arith,
  codes, contains_code, is_whitespace,
}
use dbgflow.Common.Error.{Result, ok, err}
use dbgflow.Common.Proxy.Url.{
  Text, strip_prefix, split_first, split_last, digits_u16, parse_u16, validate_proxy_port,
  split_authority_host_port, validate_authority, symbol_proxy_from_url, is_empty, scheme_rest,
}

strip_prefix-append : (p v r : Text) → strip_prefix p v ≡ some r → v ≡ p ++ r
unfolding strip_prefix
strip_prefix-append [] v r h = ground arith
strip_prefix-append (a ∷ p) [] r h = absurd (ground arith)
strip_prefix-append (a ∷ p) (c ∷ v) r h = ground (arith, strip_prefix-append p v r)

split_first-append : (sep : ℕ) (v b a : Text) → split_first sep v ≡ some (b, a) → v ≡ b ++ sep ∷ a
unfolding split_first
split_first-append sep [] b a h = absurd (ground arith)
split_first-append sep (c ∷ v) b a h = go (split_first sep v) refl (split_first-append sep v)
  where
    go :
        (r : Option (Text × Text))
        → split_first sep v ≡ r
        → ((x y : Text) → split_first sep v ≡ some (x, y) → v ≡ x ++ sep ∷ y)
        → c ∷ v ≡ b ++ sep ∷ a
    go none e rest = ground arith
    go (some (x, y)) e rest = ground (arith, rest x y)

split_last-append : (sep : ℕ) (v b a : Text) → split_last sep v ≡ some (b, a) → v ≡ b ++ sep ∷ a
unfolding split_last
split_last-append sep [] b a h = absurd (ground arith)
split_last-append sep (c ∷ v) b a h = go (split_last sep v) refl (split_last-append sep v)
  where
    go :
        (r : Option (Text × Text))
        → split_last sep v ≡ r
        → ((x y : Text) → split_last sep v ≡ some (x, y) → v ≡ x ++ sep ∷ y)
        → c ∷ v ≡ b ++ sep ∷ a
    go none e rest = ground arith
    go (some (x, y)) e rest = ground (arith, rest x y)

-- The forms of an authority with a port.
abbrev pub IsAddress : Text → Text → Text → Type 0
IsAddress a host port = (a ≡ host ++ b':' ∷ port) ⊎ (a ≡ b'[' ∷ host ++ b']' ∷ b':' ∷ port)

split_authority-IsAddress :
    (a host port : Text)
    → split_authority_host_port a ≡ ok (host, port)
    → is_empty port ≡ false
    → IsAddress a host port
unfolding split_authority_host_port
split_authority-IsAddress a host port h full = go (strip_prefix (b'[' ∷ []) a) refl
  where
    bracketed :
        (r : Text)
        → strip_prefix (b'[' ∷ []) a ≡ some r
        → (s : Option (Text × Text)) → split_first b']' r ≡ s
        → IsAddress a host port
    bracketed r e none f = absurd (ground arith)
    bracketed r e (some (x, [])) f = absurd (ground arith)
    bracketed r e (some (x, c ∷ y)) f =
        inr
          (ground (arith, strip_prefix-append (b'[' ∷ []) a r, split_first-append b']' r x (c ∷ y)))

    plain :
        strip_prefix (b'[' ∷ []) a ≡ none
        → (s : Option (Text × Text)) → split_last b':' a ≡ s
        → IsAddress a host port
    plain e none f = absurd (ground arith)
    plain e (some (x, y)) f = inl (ground (arith, split_last-append b':' a x y))

    go : (r : Option Text) → strip_prefix (b'[' ∷ []) a ≡ r → IsAddress a host port
    go none e = plain e (split_last b':' a) refl
    go (some r) e = bracketed r e (split_first b']' r) refl

-- A port is a number that a 16-bit word holds, and not 0.
abbrev pub IsPort : Text → Type 0
IsPort port = (n : ℕ) × (parse_u16 port ≡ some n) × (1 ≤ n) × (n ≤ 65535)

digits_u16-le : (cs : Text) (n : ℕ) → digits_u16 cs ≡ some n → n ≤ 65535
unfolding digits_u16
digits_u16-le [] n h = absurd (ground arith)
digits_u16-le (c ∷ cs) n h = ground arith

parse_u16-le : (cs : Text) (n : ℕ) → parse_u16 cs ≡ some n → n ≤ 65535
unfolding parse_u16
parse_u16-le [] n h = absurd (ground arith)
parse_u16-le (c ∷ cs) n h = ground (arith, digits_u16-le cs n, digits_u16-le (c ∷ cs) n)

IsPort-validate_proxy_port : (port : Text) → validate_proxy_port port ≡ ok tt → IsPort port
unfolding validate_proxy_port
IsPort-validate_proxy_port port h = go (parse_u16 port) refl
  where
    go : (r : Option ℕ) → parse_u16 port ≡ r → IsPort port
    go none e = absurd (ground arith)
    go (some n) e = (n, e, ground arith, parse_u16-le port n e)

-- What the symbol proxy is given: a host, with a port.
pub record IsHostPort (a : Text) : Type 0 where
  pub host : Text
  pub port : Text
  pub address : IsAddress a host port
  pub named : is_empty host ≡ false
  pub is_port : IsPort port
  pub bare :
      (contains_code b'/' a || contains_code b'?' a || contains_code b'#' a || contains_code b'@' a)
      ≡ false

authority_is : (a b : Text) → validate_authority a ≡ ok b → (b ≡ a) × IsHostPort a
unfolding validate_authority
authority_is a b h = go (split_authority_host_port a) refl
  where
    port_ok :
        (host port : Text)
        → split_authority_host_port a ≡ ok (host, port)
        → (r : Result (Unit {0})) → validate_proxy_port port ≡ r
        → validate_proxy_port port ≡ ok tt
    port_ok host port e (ok tt) f = f
    port_ok host port e (err x) f = absurd (ground arith)

    go : (r : Result (Text × Text)) → split_authority_host_port a ≡ r → (b ≡ a) × IsHostPort a
    go (err x) e = absurd (ground arith)
    go (ok (host, port)) e =
        let full : is_empty port ≡ false = ground arith in
        (
          ground arith,
          record {
            host = host;
            port = port;
            address = split_authority-IsAddress a host port e full;
            named = ground arith;
            is_port =
                IsPort-validate_proxy_port port
                  (port_ok host port e (validate_proxy_port port) refl);
            bare = ground arith;
          },
        )

scheme_rest-append :
    (v r : Text) → scheme_rest v ≡ some r → (v ≡ codes "http://" ++ r) ⊎ (v ≡ codes "https://" ++ r)
scheme_rest-append v r h = go (strip_prefix (codes "http://") v) refl
  where
    go :
        (s : Option Text)
        → strip_prefix (codes "http://") v ≡ s
        → (v ≡ codes "http://" ++ r) ⊎ (v ≡ codes "https://" ++ r)
    go (some s) e = inl (strip_prefix-append (codes "http://") v r (ground arith))
    go none e = inr (strip_prefix-append (codes "https://") v r (ground arith))

-- A proxy URL that is accepted is `http://` or `https://` and the symbol proxy, which is a host (or
-- an address in brackets), a colon and a port from 1 to 65535, without a path, a query, a fragment,
-- credentials or white space.
pub symbol_proxy_from_url-IsHostPort :
    (v a : Text)
    → symbol_proxy_from_url v ≡ ok a
    → ((v ≡ codes "http://" ++ a) ⊎ (v ≡ codes "https://" ++ a))
      × (any is_whitespace v ≡ false)
      × IsHostPort a
unfolding symbol_proxy_from_url
symbol_proxy_from_url-IsHostPort v a h = go (scheme_rest v) refl
  where
    go :
        (s : Option Text)
        → scheme_rest v ≡ s
        → ((v ≡ codes "http://" ++ a) ⊎ (v ≡ codes "https://" ++ a))
          × (any is_whitespace v ≡ false)
          × IsHostPort a
    go none e = absurd (ground arith)
    go (some r) e =
        let passed : validate_authority r ≡ ok a = ground arith in
        let (same, good) = authority_is r a passed in
        let here : scheme_rest v ≡ some a = rw same e in
        (scheme_rest-append v a here, ground arith, rw same good)
