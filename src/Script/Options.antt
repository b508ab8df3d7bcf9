-- ===== src/Script/Options.antt =====
-- cmd/mh2c/script_receive.go: the keys of the action `receive`.
use mh2c_go.Base.{
  ℕ, Bool, true, false, not, ◌&&◌, [], if◌then◌else◌, Option, none, some, Bytes, bytes_eq, codes,
  Result, ok, err, ◌>>=◌, not_together, count_not_positive, key_required,
}
use mh2c_go.Base.Int.{ℤ, is_positive, to_nat}
use mh2c_go.Script.Values.{ScriptTable, string_value, bool_value, int_value, optional_uint32}
use mh2c_go.Script.Fields.{or_else}

-- The keys of the action; `until` is empty where the key is missing.
pub record ReceiveOptions : Type 0 where
  pub count : ℕ
  pub until : Bytes
  pub stream_id : Option ℕ
  pub ack_settings : Bool
  pub ack_ping : Bool

abbrev is_some {ℓ} : {A : Type ℓ} → Option A → Bool
is_some none = false
is_some (some _) = true

abbrev receive_count : Option ℤ → Result ℕ
receive_count none = ok 1
receive_count (some v) = if is_positive v then ok (to_nat v) else err count_not_positive

-- The reading of the keys, up to the loop.
unfoldable pub parse_receive_options : ScriptTable → Result ReceiveOptions
parse_receive_options action =
    if is_some (action (codes "count")) && is_some (action (codes "until"))
    then err (not_together (codes "count") (codes "until"))
    else do
      v ← int_value action (codes "count")
      n ← receive_count v
      until ← string_value action (codes "until")
      id ← optional_uint32 action (codes "stream_id")
      ack_settings ← bool_value action (codes "ack_settings")
      ack_ping ← bool_value action (codes "ack_ping")
      if bytes_eq (or_else [] until) (codes "end_stream") && not (is_some id)
          then err (key_required (codes "stream_id"))
          else ok (record {
            count = n;
            until = or_else [] until;
            stream_id = id;
            ack_settings = or_else false ack_settings;
            ack_ping = or_else false ack_ping;
          })
