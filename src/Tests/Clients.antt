-- ===== src/Tests/Clients.antt =====
-- A client over a connection in memory and a trivial HPACK library: runs, and the theorems of Client
-- at concrete inputs.
use mh2c_go.Base.{
  false, index, ℕ, suc, ◌<◌, ◌≡◌, ◌≢◌, refl, sym, arith, List, [], ◌∷◌, ◌++◌, length, take, drop,
  take-append-drop, length-take, Bytes, ok, err, some, none, inl, invalid_padding,
}
use mh2c_go.Frame.{Header, SettingsFrame, Frame, settings_frame}
use mh2c_go.Frame.Codec.{header, payload, unmarshal}
use mh2c_go.Frame.Data.{parse_data_frame}
use mh2c_go.Frame.Settings.{append_settings, settings_payload}
use mh2c_go.Frame.RoundTrip.{IsValid}
use mh2c_go.Frame.RoundTrip.HeaderBytes.{header_bytes}
use mh2c_go.Wire.{append_uint16, append_uint32}
use mh2c_go.Hpack.{Library, HeaderField}
use mh2c_go.Client.Conn.{Conn}
use mh2c_go.Client.Transport.{
  InOrder, Wrote, Took, Sent, Received, write_all_sends, read_full_fills,
}
use mh2c_go.Client.Core.{
  Client, new_with_conn, send_frame, receive_frame, track_sent_frame, track_received_frame,
  apply_frame, apply_sent_frame,
}
use mh2c_go.Client.Delivery.{send_frame_sends, receive_frame_delivers, receive_frame_malformed}

-- A library that neither compresses nor keeps a table: each byte of a block is a field's name.
abbrev names : Bytes → List HeaderField
names [] = []
names (b ∷ bs) = record { name = b ∷ []; value = []; sensitive = false } ∷ names bs

abbrev pub plain_library : Library
plain_library = record {
  Encoder = ℕ;
  Decoder = ℕ;
  new_encoder = 0;
  set_encoder_limit = λ v e. e;
  set_encoder_size = λ v e. v;
  write_field = λ f e. (e, f.name, none);
  new_decoder = λ size. size;
  set_decoder_allowed = λ v d. d;
  set_decoder_size = λ v d. v;
  decode_full = λ block d. (suc d, inl (names block));
}

pub record Pipe : Type 0 where
  pub incoming : Bytes
  pub outgoing : Bytes

-- Each call moves one byte at most.
abbrev pub pipe : Conn
pipe = record {
  State = Pipe;
  write = λ bs s. (record s { outgoing = s.outgoing ++ take 1 bs }, length (take 1 bs), none);
  read = λ n s. (record s { incoming = drop 1 s.incoming }, take 1 s.incoming, none);
  close = λ s. (s, ok tt);
}

pub pipe_writes :
    (bs : Bytes) (s : Pipe) → bs ≢ [] → Wrote pipe (λ p. p.incoming) (λ p. p.outgoing) bs s
pipe_writes [] s h = absurd (h refl)
pipe_writes (b ∷ bs) s h = record {
  no_error = refl;
  progress = omega arith;
  within = omega arith;
  sends = refl;
  keeps = refl;
}

pub pipe_reads :
    (n : ℕ) (s : Pipe) → 0 < n → s.incoming ≢ [] → Took pipe (λ p. p.incoming) (λ p. p.outgoing) n s
pipe_reads n s pos ne = record {
  no_error = refl;
  progress = first s.incoming ne;
  within = omega (arith, length-take 1 s.incoming);
  takes = sym (take-append-drop 1 s.incoming);
  keeps = refl;
}
  where
    first : (bs : Bytes) → bs ≢ [] → 0 < length (take 1 bs)
    first [] h = absurd (h refl)
    first (b ∷ bs) h = omega arith

abbrev pub pipe-InOrder : InOrder pipe
pipe-InOrder = record {
  unread = λ p. p.incoming;
  sent = λ p. p.outgoing;
  writes = pipe_writes;
  reads = pipe_reads;
}

-- SETTINGS with HEADER_TABLE_SIZE = 100, on a connection where it waits with one more byte behind.
abbrev pub table_settings_frame : SettingsFrame
table_settings_frame = record {
  frame_header = record { length = 6; type = 4; flags = 0; stream_id = 0 };
  settings = record { id = 1; value = 100 } ∷ [];
}

abbrev pub table_settings : Frame
table_settings = settings_frame table_settings_frame

pub table_settings-IsValid : IsValid table_settings
unfolding header payload settings_payload append_settings append_uint16 append_uint32
table_settings-IsValid = record {
  length_is = refl;
  short = omega arith;
  stream_id_fits = omega arith;
  body = (refl, omega arith);
}

abbrev pub waiting : Pipe
waiting = record {
  incoming = header_bytes (header table_settings) ++ (payload table_settings ++ (7 ∷ []));
  outgoing = [];
}

abbrev pub client : Client plain_library pipe
client = new_with_conn plain_library pipe (some waiting) 4096

client_conn : client.conn ≡ some waiting
unfolding new_with_conn
client_conn = refl

pub length-table_settings : length (payload table_settings) ≡ 6
unfolding payload settings_payload append_settings append_uint16 append_uint32
length-table_settings = refl

receive_frame_delivers_example :
    (s' : Pipe) × (receive_frame 15 client
      ≡ track_received_frame table_settings
          (apply_frame table_settings (record client { conn = some s' })))
    × (s'.incoming ≡ 7 ∷ [])
    × (s'.outgoing ≡ [])
receive_frame_delivers_example =
    receive_frame_delivers pipe-InOrder 15 table_settings (7 ∷ []) client waiting
      table_settings-IsValid client_conn refl (omega (arith, length-table_settings))

send_frame_sends_example :
    (s' : Pipe) × (send_frame 15 table_settings client
      ≡ track_sent_frame table_settings
          (apply_sent_frame table_settings (record client { conn = some s' })))
    × (s'.outgoing ≡ [] ++ (header_bytes (header table_settings) ++ payload table_settings))
    × (s'.incoming ≡ waiting.incoming)
send_frame_sends_example =
    send_frame_sends pipe-InOrder 15 table_settings client waiting table_settings-IsValid
      client_conn (omega (arith, length-table_settings))

-- A DATA frame whose padding does not fit, with one more byte behind.
abbrev bad_header : Header
bad_header = record { length = 2; type = 0; flags = 8; stream_id = 1 }

abbrev malformed : Pipe
malformed = record {
  incoming = header_bytes bad_header ++ ((9 ∷ 0 ∷ []) ++ (7 ∷ []));
  outgoing = [];
}

bad_header_refused : unmarshal bad_header (9 ∷ 0 ∷ []) ≡ err (invalid_padding 0)
unfolding unmarshal parse_data_frame index
bad_header_refused = refl

abbrev malformed_client : Client plain_library pipe
malformed_client = record client { conn = some malformed }

receive_frame_malformed_example :
    (s' : Pipe) × (receive_frame 11 malformed_client
      ≡ (record malformed_client { conn = some s' }, err (invalid_padding 0)))
    × (s'.incoming ≡ 7 ∷ [])
    × (s'.outgoing ≡ [])
receive_frame_malformed_example =
    receive_frame_malformed pipe-InOrder 11 bad_header (9 ∷ 0 ∷ []) (7 ∷ []) (invalid_padding 0)
      malformed_client malformed refl (omega arith) (omega arith) bad_header_refused refl refl
      (omega arith)

write_all_sends_example : Sent pipe pipe-InOrder 3 (1 ∷ 2 ∷ 3 ∷ []) waiting
write_all_sends_example = write_all_sends pipe pipe-InOrder 3 (1 ∷ 2 ∷ 3 ∷ []) waiting (omega arith)

abbrev three : Pipe
three = record { incoming = 1 ∷ 2 ∷ 3 ∷ []; outgoing = [] }

read_full_fills_example : Received pipe pipe-InOrder 2 2 [] (1 ∷ 2 ∷ []) (3 ∷ []) three
read_full_fills_example =
    read_full_fills pipe pipe-InOrder 2 2 [] (1 ∷ 2 ∷ []) (3 ∷ []) three (omega arith) refl
      (omega arith)
