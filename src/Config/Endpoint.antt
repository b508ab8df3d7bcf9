-- ===== src/Config/Endpoint.antt =====
-- cmd/mh2c/endpoint.go: the endpoint that a configuration names.
use mh2c_go.Base.{
  ℕ, ◌%◌, ◌^◌, ◌-◌, not, ◌==◌, if◌then◌else◌, Bytes, bytes_eq, codes, Result, ok, err, ◌>>=◌,
  url_not_absolute, scheme_not_supported, url_without_host,
}
use mh2c_go.Frame.Strings.{number_text}
use mh2c_go.Tlsconn.{join_host_port}
use mh2c_go.Config.{Config, is_empty}
use mh2c_go.Config.Flags.{parse_decimal}

-- `endpoint`
pub record Endpoint : Type 0 where
  pub scheme : Bytes
  pub host : Bytes
  pub authority : Bytes
  pub path : Bytes
  pub port : ℕ

-- What net/url gives of a URL: `Scheme`, which is empty where `IsAbs` is false, `Host`,
-- `Hostname()`, `Port()` and `RequestURI()`.
pub record Url : Type 0 where
  pub scheme : Bytes
  pub host : Bytes
  pub hostname : Bytes
  pub port : Bytes
  pub request_uri : Bytes

abbrev pub or_default : Bytes → Bytes → Bytes
or_default default text = if is_empty text then default else text

abbrev pub url_port : Bytes → Result ℕ
url_port text = if is_empty text then ok 443 else parse_decimal (2 ^ 16 - 1) text

abbrev pub url_endpoint : Config → Url → ℕ → Endpoint
url_endpoint cfg u port = record {
  scheme = u.scheme;
  host = u.hostname;
  authority = or_default u.host cfg.authority;
  path = or_default (codes "/") u.request_uri;
  port = port % 2 ^ 16;
}

unfoldable pub endpoint_of_url : Config → Url → Result Endpoint
endpoint_of_url cfg u =
    if is_empty u.scheme
    then err (url_not_absolute cfg.raw_url)
    else if not (bytes_eq u.scheme (codes "https"))
    then err (scheme_not_supported u.scheme)
    else if is_empty u.hostname
    then err (url_without_host cfg.raw_url)
    else (url_port u.port >>= λ port. ok (url_endpoint cfg u port))

-- The authority of a host and a port, where no other is given.
abbrev pub default_authority : Config → Bytes
default_authority cfg =
    -- `int(cfg.port)` is the port itself: it is of 16 bits.
    if cfg.port == 443 then cfg.host else join_host_port cfg.host (number_text cfg.port)

abbrev pub parts_endpoint : Config → Endpoint
parts_endpoint cfg = record {
  scheme = cfg.scheme;
  host = cfg.host;
  authority = or_default (default_authority cfg) cfg.authority;
  path = or_default (codes "/") cfg.path;
  port = cfg.port % 2 ^ 16;
}

unfoldable pub endpoint_of_parts : Config → Result Endpoint
endpoint_of_parts cfg =
    if not (bytes_eq cfg.scheme (codes "https"))
    then err (scheme_not_supported cfg.scheme)
    else ok (parts_endpoint cfg)

-- `resolveEndpoint`, with `url.Parse` as a parameter.
unfoldable pub resolve_endpoint : (Bytes → Result Url) → Config → Result Endpoint
unfolding endpoint_of_url endpoint_of_parts
resolve_endpoint parse_url cfg =
    if not (is_empty cfg.raw_url)
    then (parse_url cfg.raw_url >>= λ u. endpoint_of_url cfg u)
    else endpoint_of_parts cfg
