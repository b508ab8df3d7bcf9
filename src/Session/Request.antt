-- ===== src/Session/Request.antt =====
-- cmd/mh2c/request.go: the header fields of a request, and its frames.
use mh2c_go.Base.{
  ℕ, Bool, true, false, not, ◌&&◌, ◌||◌, List, [], ◌∷◌, ◌++◌, ltb, if◌then◌else◌, length, bit_or,
  Bytes, bytes_eq, codes, Result, ok, err, panic, diverge,
}
use mh2c_go.Base.State.{M, ◌>>=◌, ◌>>◌, pure}
use mh2c_go.Frame.{headers_frame, data_frame, flag_end_headers, flag_end_stream}
use mh2c_go.Frame.Headers.{new_headers_frame}
use mh2c_go.Frame.Data.{new_data_frame}
use mh2c_go.Frame.Strings.{number_text}
use mh2c_go.Hpack.{Library, HeaderField}
use mh2c_go.Client.Conn.{Conn}
use mh2c_go.Client.Core.{encode_headers}
use mh2c_go.Script.Text.{Unicode}
use mh2c_go.Script.Fields.{parse_header_texts}
use mh2c_go.Session.{Output, Session, on_client, send_frame_and_report}

-- What `buildRequestFields` reads of the endpoint and of the configuration.
pub record RequestConfig : Type 0 where
  pub method : Bytes
  pub path : Bytes
  pub scheme : Bytes
  pub authority : Bytes
  pub headers : List Bytes

-- `overrides[name]`
unfoldable pub overrides : List HeaderField → Bytes → Bool
overrides [] name = false
overrides (f ∷ fs) name = bytes_eq f.name name || overrides fs name

abbrev pub field : Bytes → Bytes → HeaderField
field name value = record { name = name; value = value; sensitive = false }

unfoldable pub default_fields : RequestConfig → List HeaderField
default_fields cfg =
    field (codes ":method") cfg.method
    ∷ field (codes ":path") cfg.path
    ∷ field (codes ":scheme") cfg.scheme
    ∷ field (codes ":authority") cfg.authority
    ∷ []

-- The defaults that no custom field overrides.
unfoldable pub keep_defaults : List HeaderField → List HeaderField → List HeaderField
keep_defaults custom [] = []
keep_defaults custom (d ∷ ds) =
    if overrides custom d.name then keep_defaults custom ds else (d ∷ keep_defaults custom ds)

abbrev map_result {ℓ κ} : {A : Type ℓ} {B : Type κ} → (A → B) → Result A → Result B
map_result f (ok a) = ok (f a)
map_result f (err why) = err why
map_result f panic = panic
map_result f diverge = diverge

abbrev content_length : Bytes → List HeaderField → List HeaderField
content_length body custom =
    if ltb 0 (length body) && not (overrides custom (codes "content-length"))
    then field (codes "content-length") (number_text (length body)) ∷ []
    else []

unfoldable pub build_request_fields : Unicode → RequestConfig → Bytes → Result (List HeaderField)
unfolding overrides keep_defaults default_fields
build_request_fields U cfg body =
    map_result
      (λ custom.
        keep_defaults custom (default_fields cfg) ++ (content_length body custom ++ custom))
      (parse_header_texts U cfg.headers)

-- `len(body) == 0`
abbrev pub is_nil : Bytes → Bool
is_nil [] = true
is_nil (_ ∷ _) = false

-- `flags`, with END_STREAM where no body follows.
abbrev pub request_flags : Bool → ℕ
request_flags true = bit_or flag_end_headers flag_end_stream
request_flags false = flag_end_headers

module _ {X : Library} {C : Conn} {O : Output} where
  abbrev pub send_body : Bool → ℕ → ℕ → Bytes → M (Session X C O) (Unit {0})
  send_body true fuel stream_id body = pure tt
  send_body false fuel stream_id body =
      send_frame_and_report fuel (data_frame (new_data_frame stream_id flag_end_stream body))

  unfoldable pub send_request : ℕ → ℕ → List HeaderField → Bytes → M (Session X C O) (Unit {0})
  send_request fuel stream_id fields body =
      let is_empty = is_nil body in
      on_client (encode_headers fields) >>= λ block.
      send_frame_and_report fuel
        (headers_frame (new_headers_frame stream_id (request_flags is_empty) block))
      >> send_body is_empty fuel stream_id body
