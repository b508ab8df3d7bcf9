-- ===== src/Script/Framed.antt =====
-- cmd/mh2c/script_frame.go: what each frame that a script builds satisfies.
use mh2c_go.Base.{
  ℕ, arith, ◌%◌, ◌^◌, ◌≡◌, refl, if◌then◌else◌, Bool, true, false, length, Option, none, some,
  Bytes, bytes_eq, codes, Result, ok, err, panic, diverge,
}
use mathlib.Core.Path.{subst}
use mh2c_go.Base.State.{M, continue}
use mh2c_go.Frame.{
  Frame, data_frame, headers_frame, priority_frame, rst_stream_frame, settings_frame,
  push_promise_frame, ping_frame, go_away_frame, window_update_frame, continuation_frame, raw_frame,
  type_data, type_headers, type_priority, type_rst_stream, type_settings, type_push_promise,
  type_ping, type_go_away, type_window_update, type_continuation,
}
use mh2c_go.Frame.Data.{new_data_frame}
use mh2c_go.Frame.Headers.{new_headers_frame}
use mh2c_go.Frame.PushPromise.{new_push_promise_frame}
use mh2c_go.Frame.Settings.{new_settings_frame}
use mh2c_go.Frame.Control.{
  new_priority_frame, new_rst_stream_frame, new_ping_frame, new_go_away_frame,
  new_window_update_frame, new_continuation_frame,
}
use mh2c_go.Frame.Codec.{header, payload}
use mh2c_go.Hpack.{Library}
use mh2c_go.Client.Conn.{Conn}
use mh2c_go.Client.Core.{Client, encode_headers}
use mh2c_go.Script.Values.{ScriptTable, require_string}
use mh2c_go.Script.Text.{Unicode}
use mh2c_go.Script.Build.{
  build_header_block, build_settings, build_headers, build_continuation, build_data, build_ping,
  build_go_away, build_window_update, build_rst_stream, build_priority, build_push_promise,
  build_raw, build_case, build_script_frame, with_pad_length,
}

-- The header has this type and the length of the payload.
abbrev pub IsSized : ℕ → Frame → Type 0
IsSized type f = ((header f).type ≡ type) × ((header f).length ≡ length (payload f) % 2 ^ 32)

-- A raw frame has the type and the length that the script gives it.
abbrev pub IsFramed : Frame → Type 0
IsFramed (data_frame f) = IsSized type_data (data_frame f)
IsFramed (headers_frame f) = IsSized type_headers (headers_frame f)
IsFramed (priority_frame f) = IsSized type_priority (priority_frame f)
IsFramed (rst_stream_frame f) = IsSized type_rst_stream (rst_stream_frame f)
IsFramed (settings_frame f) = IsSized type_settings (settings_frame f)
IsFramed (push_promise_frame f) = IsSized type_push_promise (push_promise_frame f)
IsFramed (ping_frame f) = IsSized type_ping (ping_frame f)
IsFramed (go_away_frame f) = IsSized type_go_away (go_away_frame f)
IsFramed (window_update_frame f) = IsSized type_window_update (window_update_frame f)
IsFramed (continuation_frame f) = IsSized type_continuation (continuation_frame f)
IsFramed (raw_frame f) = Unit {0}

with_pad_length-IsFramed :
    (stream_id flags : ℕ) (content : Bytes) (pad : Option ℕ)
    → IsFramed (with_pad_length stream_id flags content pad)
unfolding new_data_frame header payload
with_pad_length-IsFramed stream_id flags content none = (refl, refl)
with_pad_length-IsFramed stream_id flags content (some pad) = (refl, refl)

module _ {X : Library} {C : Conn} where
  -- Everything but the request codec is as before.
  pub record Keeps (c c' : Client X C) : Type 0 where
    pub same_conn : c'.conn ≡ c.conn
    pub same_response_codec : c'.response_codec ≡ c.response_codec
    pub same_sent_header_block : c'.sent_header_block ≡ c.sent_header_block
    pub same_received_header_block : c'.received_header_block ≡ c.received_header_block

  unchanged-Keeps : (c : Client X C) → Keeps c c
  unchanged-Keeps c = record {
    same_conn = refl;
    same_response_codec = refl;
    same_sent_header_block = refl;
    same_received_header_block = refl;
  }

  -- The outcome keeps the client, and its value satisfies `P`.
  abbrev Holds : {A : Type 0} → (A → Type 0) → Client X C → Client X C × Result A → Type 0
  Holds P c (c', ok a) = Keeps c c' × P a
  Holds P c (c', err _) = Unit {0}
  Holds P c (c', panic) = Unit {0}
  Holds P c (c', diverge) = Unit {0}

  record Builds (m : M (Client X C) Frame) (c : Client X C) : Type 0 where
    framed : Holds IsFramed c (m c)

  choose :
      (b : Bool) (x : M (Client X C) Frame) {y : M (Client X C) Frame} (c : Client X C)
      → Holds IsFramed c (x c)
      → Builds y c
      → Builds (if b then x else y) c
  choose true x c h k = record { framed = h }
  choose false x c h k = k

  module _ (U : Unicode) where
    build_settings-Holds :
        (action : ScriptTable) (c : Client X C) → Holds IsFramed c (build_settings U action c)
    unfolding build_settings new_settings_frame header payload
    build_settings-Holds action c = ground arith

    build_continuation-Holds :
        (action : ScriptTable) (c : Client X C) → Holds IsFramed c (build_continuation U action c)
    unfolding build_continuation new_continuation_frame header payload
    build_continuation-Holds action c = ground arith

    build_ping-Holds :
        (action : ScriptTable) (c : Client X C) → Holds IsFramed c (build_ping U action c)
    unfolding build_ping new_ping_frame header payload
    build_ping-Holds action c = ground arith

    build_go_away-Holds :
        (action : ScriptTable) (c : Client X C) → Holds IsFramed c (build_go_away U action c)
    unfolding build_go_away new_go_away_frame header payload
    build_go_away-Holds action c = ground arith

    build_window_update-Holds :
        (action : ScriptTable) (c : Client X C) → Holds IsFramed c (build_window_update U action c)
    unfolding build_window_update new_window_update_frame header payload
    build_window_update-Holds action c = ground arith

    build_rst_stream-Holds :
        (action : ScriptTable) (c : Client X C) → Holds IsFramed c (build_rst_stream U action c)
    unfolding build_rst_stream new_rst_stream_frame header payload
    build_rst_stream-Holds action c = ground arith

    build_priority-Holds :
        (action : ScriptTable) (c : Client X C) → Holds IsFramed c (build_priority U action c)
    unfolding build_priority new_priority_frame header payload
    build_priority-Holds action c = ground arith

    build_data-Holds :
        (action : ScriptTable) (c : Client X C) → Holds IsFramed c (build_data U action c)
    unfolding build_data new_data_frame header payload
    build_data-Holds action c = ground arith

    build_raw-Holds :
        (action : ScriptTable) (c : Client X C) → Holds IsFramed c (build_raw U action c)
    unfolding build_raw header payload
    build_raw-Holds action c = ground arith

    build_headers-Holds :
        (action : ScriptTable) (c : Client X C) → Holds IsFramed c (build_headers U action c)
    unfolding build_headers new_headers_frame build_header_block encode_headers header payload
    build_headers-Holds action c = ground arith

    build_push_promise-Holds :
        (action : ScriptTable) (c : Client X C) → Holds IsFramed c (build_push_promise U action c)
    unfolding build_push_promise new_push_promise_frame build_header_block encode_headers header
        payload
    build_push_promise-Holds action c = ground arith

    build_case-Builds :
        (type : Bytes) (action : ScriptTable) (c : Client X C) → Builds (build_case U type action) c
    unfolding build_case
    build_case-Builds type action c =
        choose (bytes_eq type (codes "settings")) (build_settings U action) c
          (build_settings-Holds action c)
          (choose (bytes_eq type (codes "headers")) (build_headers U action) c
            (build_headers-Holds action c)
            (choose (bytes_eq type (codes "continuation")) (build_continuation U action) c
              (build_continuation-Holds action c)
              (choose (bytes_eq type (codes "data")) (build_data U action) c
                (build_data-Holds action c)
                (choose (bytes_eq type (codes "ping")) (build_ping U action) c
                  (build_ping-Holds action c)
                  (choose (bytes_eq type (codes "goaway")) (build_go_away U action) c
                    (build_go_away-Holds action c)
                    (choose (bytes_eq type (codes "window_update")) (build_window_update U action) c
                      (build_window_update-Holds action c)
                      (choose (bytes_eq type (codes "rst_stream")) (build_rst_stream U action) c
                        (build_rst_stream-Holds action c)
                        (choose (bytes_eq type (codes "priority")) (build_priority U action) c
                          (build_priority-Holds action c)
                          (choose (bytes_eq type (codes "push_promise"))
                            (build_push_promise U action) c (build_push_promise-Holds action c)
                            (choose (bytes_eq type (codes "raw")) (build_raw U action) c
                              (build_raw-Holds action c) (record { framed = tt })))))))))))

    build_script_frame-Holds :
        (action : ScriptTable) (c : Client X C) → Holds IsFramed c (build_script_frame U action c)
    unfolding build_script_frame
    build_script_frame-Holds action c = split (require_string action (codes "type"))
      where
        split :
            (r : Result Bytes)
            → Holds IsFramed c (continue (c, r) (λ type. build_case U type action))
        split (ok type) = (build_case-Builds type action c).framed
        split (err _) = tt
        split panic = tt
        split diverge = tt

    -- Whatever frame a script's action builds, its header has the type of its kind and the length of
    -- its payload, except for a raw frame, which has what the script gives; and building it changes
    -- nothing of the client but the request codec: nothing is sent or tracked.
    pub build_script_frame-IsFramed :
        (action : ScriptTable) (c c' : Client X C) (f : Frame)
        → build_script_frame U action c ≡ (c', ok f)
        → Keeps c c' × IsFramed f
    build_script_frame-IsFramed action c c' f runs =
        subst (Holds IsFramed c) runs (build_script_frame-Holds action c)
