-- ===== src/Config/Reached.antt =====
-- cmd/mh2c/script.go and endpoint.go: the endpoint that a session of a script connects to.
use mh2c_go.Base.{
  not-false, ℕ, ◌^◌, ◌≤◌, ◌<◌, Bool, false, not, Bool-cases, inl, inr, if◌then◌else◌, Option, none,
  some, Bytes, bytes_eq, bytes_eq_iff, codes, Result, Error, bound_ok, guarded_ok, ok_same, ok, err,
  ◌>>=◌, ◌≡◌, ◌⊎◌, scheme_not_supported, url_not_absolute, url_without_host, refl, subst, arith,
  connection_port, connection_timeout, connection_table_size,
}
use mh2c_go.Base.Int.{ℤ, pos, negsuc, to_unsigned}
use mh2c_go.Script.Values.{ScriptTable, string_value, bool_value, int_value}
use mh2c_go.Config.{Config, is_empty}
use mh2c_go.Config.Connection.{
  put_url, put_scheme, put_host, put_authority, put_path, put_port, put_insecure, put_send_go_away,
  put_timeout, put_max_table, set_present, put_or, put_number, string_key, bool_key, number_key,
  no_limit, apply_script_connection,
}
use mh2c_go.Config.Endpoint.{
  Endpoint, Url, or_default, parts_endpoint, url_endpoint, url_port, endpoint_of_url,
  endpoint_of_parts, resolve_endpoint,
}

-- What a value that is put keeps, the key's reading kept: for a value of any type.
set_present-keeps :
    {A : Type 0} (P : Config → Type 0) (put : A → Config → Result Config) (cfg out : Config)
    (o : Option A)
    → ((a : A) → put a cfg ≡ ok out → P out)
    → P cfg
    → set_present put cfg o ≡ ok out
    → P out
set_present-keeps P put cfg out none puts h e = subst P (ok_same cfg out e) h
set_present-keeps P put cfg out (some a) puts h e = puts a e

to_unsigned-bound : (limit n : ℕ) (v : ℤ) → to_unsigned limit v ≡ some n → n ≤ limit
to_unsigned-bound limit n (negsuc m) e = absurd (ground (arith, e))
to_unsigned-bound limit n (pos m) e = ground (arith, e)

module _ (P : Config → Type 0) (t : ScriptTable) (key : Bytes) where
  string_key-keeps :
      (put : Bytes → Config → Config) (cfg out : Config)
      → ((v : Bytes) (c : Config) → P c → P (put v c))
      → P cfg
      → string_key t key put cfg ≡ ok out
      → P out
  string_key-keeps put cfg out keeps h e =
      let (v, _, set) =
        bound_ok (string_value t key) (set_present (λ text c. ok (put text c)) cfg) out e in
      set_present-keeps P (λ text c. ok (put text c)) cfg out v
        (λ a e'. subst P (ok_same (put a cfg) out e') (keeps a cfg h)) h set

  bool_key-keeps :
      (put : Bool → Config → Config) (cfg out : Config)
      → ((v : Bool) (c : Config) → P c → P (put v c))
      → P cfg
      → bool_key t key put cfg ≡ ok out
      → P out
  bool_key-keeps put cfg out keeps h e =
      let (v, _, set) = bound_ok (bool_value t key) (set_present (λ b c. ok (put b c)) cfg) out e in
      set_present-keeps P (λ b c. ok (put b c)) cfg out v
        (λ a e'. subst P (ok_same (put a cfg) out e') (keeps a cfg h)) h set

  put_number-keeps :
      (limit : ℕ) (why : Error) (put : ℕ → Config → Config) (cfg out : Config) (v : ℤ)
      → ((n : ℕ) (c : Config) → n ≤ limit → P c → P (put n c))
      → P cfg
      → put_number limit why put v cfg ≡ ok out
      → P out
  put_number-keeps limit why put cfg out v keeps h e = read (to_unsigned limit v) refl e
    where
      read : (o : Option ℕ) → to_unsigned limit v ≡ o → put_or why put cfg o ≡ ok out → P out
      read none is e' = absurd (ground (arith, e'))
      read (some n) is e' =
          subst P (ok_same (put n cfg) out e') (keeps n cfg (to_unsigned-bound limit n v is) h)

  number_key-keeps :
      (limit : ℕ) (why : Error) (put : ℕ → Config → Config) (cfg out : Config)
      → ((n : ℕ) (c : Config) → n ≤ limit → P c → P (put n c))
      → P cfg
      → number_key t key limit why put cfg ≡ ok out
      → P out
  number_key-keeps limit why put cfg out keeps h e =
      let (v, _, set) =
        bound_ok (int_value t key) (set_present (put_number limit why put) cfg) out e in
      set_present-keeps P (put_number limit why put) cfg out v
        (λ a e'. put_number-keeps limit why put cfg out a keeps h e') h set

-- What a connection cannot change, and the bound on its port.
abbrev Kept : Config → Config → Type 0
Kept before c = (c.port < 2 ^ 16) × (c.stream_id ≡ before.stream_id) × (c.mode ≡ before.mode)

-- A chain of two keeps what both keep.
both_keep :
    (P : Config → Type 0) (m : Result Config) (f : Config → Result Config)
    → ((c : Config) → m ≡ ok c → P c)
    → ((c d : Config) → P c → f c ≡ ok d → P d)
    → (d : Config) → m >>= f ≡ ok d
    → P d
both_keep P m f first then_ d e =
    let (c, given, e') = bound_ok m f d e in then_ c d (first c given) e'

-- The connection of a script leaves the stream and the mode, and its port is one of 16 bits too.
pub apply_script_connection-Kept :
    (before out : Config) (t : ScriptTable)
    → before.port < 2 ^ 16
    → apply_script_connection before t ≡ ok out
    → (out.port < 2 ^ 16) × (out.stream_id ≡ before.stream_id) × (out.mode ≡ before.mode)
unfolding apply_script_connection
apply_script_connection-Kept before out t small =
    let P = Kept before in
    both_keep P _ _
      (both_keep P _ _
        (both_keep P _ _
          (both_keep P _ _
            (both_keep P _ _
              (both_keep P _ _
                (both_keep P _ _
                  (both_keep P _ _
                    (both_keep P _ _
                      (λ d e.
                        string_key-keeps P t (codes "url") put_url before d (λ v c h. h)
                          (small, refl, refl) e)
                      (λ c d h e.
                        string_key-keeps P t (codes "scheme") put_scheme c d (λ v c h. h) h e))
                    (λ c d h e. string_key-keeps P t (codes "host") put_host c d (λ v c h. h) h e))
                  (λ c d h e.
                    string_key-keeps P t (codes "authority") put_authority c d (λ v c h. h) h e))
                (λ c d h e. string_key-keeps P t (codes "path") put_path c d (λ v c h. h) h e))
              (λ c d h e.
                number_key-keeps P t (codes "port") 65535 connection_port put_port c d
                  (λ n c le h. (omega arith, h.1, h.2)) h e))
            (λ c d h e. bool_key-keeps P t (codes "insecure") put_insecure c d (λ v c h. h) h e))
          (λ c d h e.
            bool_key-keeps P t (codes "send_goaway") put_send_go_away c d (λ v c h. h) h e))
        (λ c d h e.
          number_key-keeps P t (codes "timeout_ms") no_limit connection_timeout put_timeout c d
            (λ n c le h. h) h e))
      (λ c d h e.
        number_key-keeps P t (codes "max_table_size") no_limit connection_table_size put_max_table c
          d (λ n c le h. h) h e)
      out

not_empty : (text : Bytes) → is_empty (or_default (codes "/") text) ≡ false
not_empty text = elim (Bool-cases (is_empty text)) [
  | inl empty ↦ rw empty refl
  | inr full ↦ rw full full
]

-- What the theorem says of an endpoint.
abbrev pub Reachable : Endpoint → Type 0
Reachable ep = (ep.scheme ≡ codes "https") × (is_empty ep.path ≡ false) × (ep.port < 2 ^ 16)

endpoint_of_url-Reachable :
    (cfg : Config) (u : Url) (ep : Endpoint) → endpoint_of_url cfg u ≡ ok ep → Reachable ep
unfolding endpoint_of_url
endpoint_of_url-Reachable cfg u ep h =
    let last = url_port u.port >>= λ port. ok (url_endpoint cfg u port) in
    let named = if is_empty u.hostname then err (url_without_host cfg.raw_url) else last in
    let https =
      if not (bytes_eq u.scheme (codes "https"))
      then err (scheme_not_supported u.scheme)
      else named in
    let (_, h1) = guarded_ok (is_empty u.scheme) (url_not_absolute cfg.raw_url) https ep h in
    let (secure, h2) =
      guarded_ok (not (bytes_eq u.scheme (codes "https"))) (scheme_not_supported u.scheme) named ep
        h1 in
    let (_, h3) = guarded_ok (is_empty u.hostname) (url_without_host cfg.raw_url) last ep h2 in
    let (port, _, h4) = bound_ok (url_port u.port) (λ port. ok (url_endpoint cfg u port)) ep h3 in
    let scheme =
      (bytes_eq_iff u.scheme (codes "https")).0
        (not-false (bytes_eq u.scheme (codes "https")) secure) in
    subst Reachable (ok_same (url_endpoint cfg u port) ep h4)
      (scheme, not_empty u.request_uri, omega arith)

endpoint_of_parts-Reachable :
    (cfg : Config) (ep : Endpoint)
    → cfg.port < 2 ^ 16
    → endpoint_of_parts cfg ≡ ok ep
    → Reachable ep × (ep.port ≡ cfg.port)
unfolding endpoint_of_parts
endpoint_of_parts-Reachable cfg ep small h =
    let (https, same) =
      guarded_ok (not (bytes_eq cfg.scheme (codes "https"))) (scheme_not_supported cfg.scheme)
        (ok (parts_endpoint cfg)) ep h in
    let scheme =
      (bytes_eq_iff cfg.scheme (codes "https")).0
        (not-false (bytes_eq cfg.scheme (codes "https")) https) in
    subst (λ e. Reachable e × (e.port ≡ cfg.port)) (ok_same (parts_endpoint cfg) ep same)
      ((scheme, not_empty cfg.path, omega arith), omega arith)

-- The endpoint that a configuration is resolved to.
pub resolve_endpoint-Reachable :
    (parse_url : Bytes → Result Url) (cfg : Config) (ep : Endpoint)
    → cfg.port < 2 ^ 16
    → resolve_endpoint parse_url cfg ≡ ok ep
    → Reachable ep × ((is_empty cfg.raw_url ≡ false) ⊎ (ep.port ≡ cfg.port))
unfolding resolve_endpoint
resolve_endpoint-Reachable parse_url cfg ep small h = elim (Bool-cases (is_empty cfg.raw_url)) [
  | inl parts ↦
      let (reached, port) = endpoint_of_parts-Reachable cfg ep small (ground (arith, parts, h)) in
      (reached, inr port)
  | inr full ↦
      let (u, _, e) =
        bound_ok (parse_url cfg.raw_url) (λ u. endpoint_of_url cfg u) ep
          (ground (arith, full, h)) in
      (endpoint_of_url-Reachable cfg u ep e, inl full)
]
