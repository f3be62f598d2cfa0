-- ===== src/Http/Url.antt =====
-- pkg/http/client.go, `parseURL` and `parsePort`.
use distributed_systems_go.Base.{
  ℕ, ◌^◌, ◌<◌, ◌≡◌, refl, ap, ◌∙◌, [], ◌∷◌, ◌++◌, Option, none, some, arith, Text, text, decimal,
  Result, ok, err,
}
use distributed_systems_go.Base.Int.{ℤ, pos}
use distributed_systems_go.Http.Strings.{cut}
use distributed_systems_go.Http.Strings.Split.{Without, Without-append, cut-part, cut-none}
use distributed_systems_go.Http.Strings.Number.{Without-decimal}
use distributed_systems_go.Http.Strings.Search.{strip_prefix}
use distributed_systems_go.Http.Strings.Sscanf.{scan_int, scan_int-decimal}

-- the named results of `parseURL`
pub record Url : Type 0 where
  pub host : Text
  pub port : ℤ
  pub path : Text

-- `"http://"`
abbrev pub scheme : Text
scheme = text "http://"

-- "http://" put in front if it is missing, and then taken off once
unfoldable pub without_scheme : Text → Text
without_scheme url = elim (strip_prefix scheme url) [ none ↦ url | some rest ↦ rest ]

unfoldable pub parse_port : Text → Result ℤ
parse_port t = elim (scan_int t) [ none ↦ err (text "invalid port: " ++ t) | some n ↦ ok n ]

-- the host and the port, for the path
unfoldable pub parse_host : Text → Option (Text × Text) → Text → Result Url
parse_host path none host = ok (record { host = host; port = pos 80; path = path })
parse_host path (some (host, port)) whole = elim (parse_port port) [
  | ok n ↦ ok (record { host = host; port = n; path = path })
  | err e ↦ err e
]

-- the part before the first slash, and the path
unfoldable pub split_path : Text → Text × Text
split_path t = elim (cut b'/' t) [
  | none ↦ (t, b'/' ∷ [])
  | some (before, after) ↦ (before, b'/' ∷ after)
]

unfoldable pub parse_url : Text → Result Url
unfolding without_scheme split_path
parse_url url =
    let (host_port, path) = split_path (without_scheme url) in
    parse_host path (cut b':' host_port) host_port

without_scheme-scheme : (t : Text) → without_scheme (scheme ++ t) ≡ t
unfolding without_scheme strip_prefix text
without_scheme-scheme t = refl

-- The host of a URL.
abbrev pub IsHost : Text → Type 0
IsHost t = Without b'/' t × Without b':' t

split_path-part :
    (t path : Text) → Without b'/' t → split_path (t ++ b'/' ∷ path) ≡ (t, b'/' ∷ path)
unfolding split_path
split_path-part t path h = rw (cut-part b'/' t path h, split_path)

parse_host-port :
    (host path : Text) (port : ℕ)
    → Without b':' host
    → port < 2 ^ 63
    → parse_host path (cut b':' (host ++ b':' ∷ decimal port)) (host ++ b':' ∷ decimal port)
      ≡ ok (record { host = host; port = pos port; path = path })
unfolding parse_host parse_port
parse_host-port host path port h fits =
    rw (cut-part b':' host (decimal port) h, scan_int-decimal port fits, parse_port, parse_host)

-- A URL with scheme, host, port and path is read as these parts, for a host without a slash or a
-- colon and a port that an int holds.
pub parse_url-full :
    (host path : Text) (port : ℕ)
    → IsHost host
    → port < 2 ^ 63
    → parse_url (scheme ++ ((host ++ b':' ∷ decimal port) ++ b'/' ∷ path))
      ≡ ok (record { host = host; port = pos port; path = b'/' ∷ path })
unfolding parse_url
parse_url-full host path port hh fits =
    ap (λ t. parse_host (split_path t).1 (cut b':' (split_path t).0) (split_path t).0)
      (without_scheme-scheme ((host ++ b':' ∷ decimal port) ++ b'/' ∷ path))
    ∙ (ap (λ (p : Text × Text). parse_host p.1 (cut b':' p.0) p.0)
          (split_path-part (host ++ b':' ∷ decimal port) path (
            Without-append b'/' host (b':' ∷ decimal port) hh.0
              ((λ e. omega arith), Without-decimal b'/' port (omega arith))))
        ∙ parse_host-port host (b'/' ∷ path) port hh.1 fits)

split_path-none : (t : Text) → Without b'/' t → split_path t ≡ (t, b'/' ∷ [])
unfolding split_path
split_path-none t h = rw (cut-none b'/' t h, split_path)

-- A URL of a scheme and a host alone is read as port 80 and path "/".
pub parse_url-host :
    (host : Text)
    → IsHost host
    → parse_url (scheme ++ host) ≡ ok (record { host = host; port = pos 80; path = b'/' ∷ [] })
unfolding parse_url parse_host
parse_url-host host hh =
    ap (λ t. parse_host (split_path t).1 (cut b':' (split_path t).0) (split_path t).0)
      (without_scheme-scheme host)
    ∙ (ap (λ (p : Text × Text). parse_host p.1 (cut b':' p.0) p.0) (split_path-none host hh.0)
        ∙ rw (cut-none b':' host hh.1, parse_host) refl)
