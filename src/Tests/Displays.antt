-- ===== src/Tests/Displays.antt =====
-- The texts of frames at concrete bytes.
use mh2c_go.Base.{
  [], ◌∷◌, ◌++◌, ◌^◌, ◌-◌, ◌≤◌, take, length, Bytes, codes, ok, panic, ◌≡◌, refl, arith, true,
}
use mh2c_go.Script.Text.{decode_hex}
use mh2c_go.Display.Format.{utf8_from, utf8_valid, truncate_utf8_prefix, truncate_hex}
use mh2c_go.Display.Printer.{printer}
use mh2c_go.Display.Reports.{Writes}
use mh2c_go.Display.Printed.{printer-Writes}
use mh2c_go.Tests.Sessions.{plain_printing, plain_printing-Prints, plain_options}
use mh2c_go.Display.Prefix.{truncate_utf8_prefix-longest}
use mh2c_go.Display.Truncated.{
  shown_length, note_of, was_cut, truncate_hex-decodes, truncate_hex-panics,
}

-- An `a`, and two of the three bytes of a euro sign.
abbrev cut_euro : Bytes
cut_euro = 97 ∷ 0xe2 ∷ 0x82 ∷ []

one_valid : utf8_valid (take 1 cut_euro) ≡ true
unfolding utf8_valid utf8_from
one_valid = refl

truncate_utf8_prefix-longest_example :
    (1 ≤ length (truncate_utf8_prefix cut_euro))
    × (truncate_utf8_prefix cut_euro ≡ take (length (truncate_utf8_prefix cut_euro)) cut_euro)
    × (utf8_valid (truncate_utf8_prefix cut_euro) ≡ true)
truncate_utf8_prefix-longest_example =
    truncate_utf8_prefix-longest cut_euro 1 (omega arith) one_valid

truncate_hex-decodes_example :
    (text : Bytes) × (truncate_hex cut_euro 2
      ≡ ok (text ++ note_of 2 (length cut_euro), was_cut 2 (length cut_euro)))
    × (decode_hex text ≡ ok (take (shown_length 2 (length cut_euro)) cut_euro))
truncate_hex-decodes_example =
    truncate_hex-decodes cut_euro 2 (omega arith) (omega arith, (omega arith, (omega arith, tt)))

truncate_hex-panics_example : truncate_hex [] (2 ^ 64 - 1) ≡ panic
truncate_hex-panics_example = truncate_hex-panics [] (2 ^ 64 - 1) (omega arith) (omega arith)

printer-Writes_example : Writes (printer plain_printing (codes "jsonl") plain_options)
printer-Writes_example =
    printer-Writes plain_printing (codes "jsonl") plain_options plain_printing-Prints (omega arith)
