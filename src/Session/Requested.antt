-- ===== src/Session/Requested.antt =====
-- cmd/mh2c/request.go: the bytes of a request, on a healthy connection.
use mh2c_go.Base.{
  ℕ, ◌+◌, ◌^◌, ◌≤◌, ◌<◌, ◌≡◌, refl, ap, ◌∙◌, arith, Bool, true, false, [], ◌∷◌, ◌++◌, append-nil,
  append_assoc, List, length, Bytes, ok,
}
use mh2c_go.Base.State.{continue_ok}
use mh2c_go.Frame.{headers_frame, data_frame, type_headers, type_data, flag_end_stream}
use mh2c_go.Frame.Headers.{new_headers_frame, headers_payload}
use mh2c_go.Frame.Data.{new_data_frame, data_payload}
use mh2c_go.Frame.Codec.{header, payload}
use mh2c_go.Frame.RoundTrip.{IsValid}
use mh2c_go.Frame.RoundTrip.HeaderBytes.{header_bytes}
use mh2c_go.Hpack.{Library, HeaderField, encode}
use mh2c_go.Client.Conn.{Conn}
use mh2c_go.Client.Transport.{InOrder}
use mh2c_go.Client.Core.{encode_headers}
use mh2c_go.Session.{Output, Session, on_client, send_frame_and_report}
use mh2c_go.Session.Request.{is_nil, request_flags, send_body, send_request}
use mh2c_go.Session.Exchange.{Succeeds, Exchanged, At, frame_bytes, send_frame_and_report_lem}
use mh2c_go.Session.Hearing.{hearing}

-- One frame with a payload and nothing else, as bytes.
abbrev plain_frame : ℕ → ℕ → ℕ → Bytes → Bytes
plain_frame type flags stream_id content =
    header_bytes
      (record { length = length content; type = type; flags = flags; stream_id = stream_id })
    ++ content

-- HEADERS with END_HEADERS and, without a body, END_STREAM; a body is one DATA frame with END_STREAM.
abbrev pub request_bytes : ℕ → Bytes → Bytes → Bytes
request_bytes stream_id block [] = plain_frame type_headers 0x5 stream_id block
request_bytes stream_id block (b ∷ bs) =
    plain_frame type_headers 0x4 stream_id block ++ plain_frame type_data 0x1 stream_id (b ∷ bs)

payload-headers :
    (is_empty : Bool) (stream_id : ℕ) (block : Bytes)
    → payload (headers_frame (new_headers_frame stream_id (request_flags is_empty) block)) ≡ block
unfolding payload new_headers_frame headers_payload
payload-headers true stream_id block = append-nil block
payload-headers false stream_id block = append-nil block

headers-IsValid :
    (is_empty : Bool) (stream_id : ℕ) (block : Bytes)
    → stream_id < 2 ^ 31
    → length block < 2 ^ 24
    → IsValid (headers_frame (new_headers_frame stream_id (request_flags is_empty) block))
unfolding header payload headers_payload new_headers_frame
headers-IsValid true stream_id block fits short = record {
  length_is = omega (arith, ap length (append-nil block));
  short = omega (arith, ap length (append-nil block));
  stream_id_fits = fits;
  body = (refl, (λ h. refl), tt);
}
headers-IsValid false stream_id block fits short = record {
  length_is = omega (arith, ap length (append-nil block));
  short = omega (arith, ap length (append-nil block));
  stream_id_fits = fits;
  body = (refl, (λ h. refl), tt);
}

payload-data :
    (stream_id : ℕ) (content : Bytes)
    → payload (data_frame (new_data_frame stream_id flag_end_stream content)) ≡ content
unfolding payload new_data_frame data_payload
payload-data stream_id content = append-nil content

data-IsValid :
    (stream_id : ℕ) (content : Bytes)
    → stream_id < 2 ^ 31
    → length content < 2 ^ 24
    → IsValid (data_frame (new_data_frame stream_id flag_end_stream content))
unfolding header payload data_payload new_data_frame
data-IsValid stream_id content fits short = record {
  length_is = omega (arith, ap length (append-nil content));
  short = omega (arith, ap length (append-nil content));
  stream_id_fits = fits;
  body = (refl, λ h. refl);
}

-- A valid frame is its header and its payload, whatever the terms that give these.
abbrev head_and : ℕ → ℕ → ℕ → ℕ → Bytes → Bytes
head_and type flags stream_id n content =
    header_bytes (record { length = n; type = type; flags = flags; stream_id = stream_id })
    ++ content

frame_bytes-headers :
    (is_empty : Bool) (stream_id : ℕ) (block : Bytes)
    → stream_id < 2 ^ 31
    → length block < 2 ^ 24
    → frame_bytes (headers_frame (new_headers_frame stream_id (request_flags is_empty) block))
      ≡ plain_frame type_headers (request_flags is_empty) stream_id block
unfolding header new_headers_frame
frame_bytes-headers is_empty stream_id block fits short =
    let v = headers-IsValid is_empty stream_id block fits short in
    let same = payload-headers is_empty stream_id block in
    let head = head_and type_headers (request_flags is_empty) stream_id in
    ap
      (λ n.
        head n
          (payload (headers_frame (new_headers_frame stream_id (request_flags is_empty) block))))
      (v.length_is ∙ ap length same)
    ∙ ap (head (length block)) same

frame_bytes-data :
    (stream_id : ℕ) (content : Bytes)
    → stream_id < 2 ^ 31
    → length content < 2 ^ 24
    → frame_bytes (data_frame (new_data_frame stream_id flag_end_stream content))
      ≡ plain_frame type_data flag_end_stream stream_id content
unfolding header new_data_frame
frame_bytes-data stream_id content fits short =
    let v = data-IsValid stream_id content fits short in
    let same = payload-data stream_id content in
    let head = head_and type_data flag_end_stream stream_id in
    ap (λ n. head n (payload (data_frame (new_data_frame stream_id flag_end_stream content))))
      (v.length_is ∙ ap length same)
    ∙ ap (head (length content)) same

module _ {X : Library} {C : Conn} {O : Output} (healthy : InOrder C) (succeeds : Succeeds O) where
  open healthy use {unread, sent}

  send_body_lem :
      (fuel stream_id : ℕ) (block body : Bytes) (s : Session X C O) (k : C.State) (before : Bytes)
      → stream_id < 2 ^ 31
      → length body < 2 ^ 24
      → At healthy succeeds s k
      → 9 + length body ≤ fuel
      → sent k ≡ before ++ plain_frame type_headers (request_flags (is_nil body)) stream_id block
      → Exchanged healthy succeeds
          (send_body (is_nil body) fuel stream_id body s)
          tt
          (unread k)
          (before ++ request_bytes stream_id block body)
          (hearing s.client)
  send_body_lem fuel stream_id block [] s k before fits short at enough was = record {
    after = k;
    returns = refl;
    at = at;
    leaves = refl;
    sends = was;
    hears = refl;
  }
  send_body_lem fuel stream_id block (b ∷ bs) s k before fits short at enough was =
      let f = data_frame (new_data_frame stream_id flag_end_stream (b ∷ bs)) in
      let r =
        send_frame_and_report_lem healthy succeeds fuel f s k
          (data-IsValid stream_id (b ∷ bs) fits short) at
          (omega (arith, ap length (payload-data stream_id (b ∷ bs)))) in
      record {
        after = r.after;
        returns = r.returns;
        at = r.at;
        leaves = r.leaves;
        sends =
            r.sends
            ∙ (ap (λ t. sent k ++ t) (frame_bytes-data stream_id (b ∷ bs) fits short)
                ∙ (ap (λ t. t ++ plain_frame type_data flag_end_stream stream_id (b ∷ bs)) was
                    ∙ append_assoc before _ _));
        hears = r.hears;
      }

  -- Over a healthy connection and with an output that does not fail, when the HPACK library encodes
  -- the fields as a block that one frame can carry: a request reads nothing and sends exactly
  -- HEADERS with that block and END_HEADERS, with END_STREAM too if there is no body, and else one
  -- DATA frame with the body and END_STREAM.
  pub send_request_lem :
      (fuel stream_id : ℕ) (fields : List HeaderField) (block body : Bytes) (s : Session X C O)
      (k : C.State)
      → (encode fields s.client.request_codec).1 ≡ ok block
      → stream_id < 2 ^ 31
      → length block < 2 ^ 24
      → length body < 2 ^ 24
      → At healthy succeeds s k
      → 9 + length block ≤ fuel
      → 9 + length body ≤ fuel
      → Exchanged healthy succeeds
          (send_request fuel stream_id fields body s)
          tt
          (unread k)
          (sent k ++ request_bytes stream_id block body)
          (hearing s.client)
  unfolding send_request encode_headers
  send_request_lem fuel stream_id fields block body s k encodes fits short short' at enough
        enough' =
      let is_empty = is_nil body in
      let f = headers_frame (new_headers_frame stream_id (request_flags is_empty) block) in
      let encoded = on_client (encode_headers fields) s in
      let h =
        send_frame_and_report_lem healthy succeeds fuel f encoded.0 k
          (headers-IsValid is_empty stream_id block fits short) at
          (omega (arith, ap length (payload-headers is_empty stream_id block))) in
      let behind = (send_frame_and_report fuel f encoded.0).0 in
      let runs : send_request fuel stream_id fields body s
          ≡ send_body is_empty fuel stream_id body behind =
        continue_ok encoded block _ encodes
        ∙ continue_ok (send_frame_and_report fuel f encoded.0) tt _ h.returns in
      let b =
        send_body_lem fuel stream_id block body behind h.after (sent k) fits short' h.at enough' (
          h.sends
          ∙ ap (λ t. sent k ++ t) (frame_bytes-headers is_empty stream_id block fits short)) in
      rw runs (record {
        after = b.after;
        returns = b.returns;
        at = b.at;
        leaves = b.leaves ∙ h.leaves;
        sends = b.sends;
        hears = b.hears ∙ h.hears;
      })
