-- ===== src/Tests/Wire.antt =====
-- Frames, fields and padding at concrete inputs.
use go_kis.Prelude.{ℕ, ◌≡◌, refl, ◌↔◌, false, [], ◌∷◌, ◌++◌, none, some, pos, negsuc, replicate}
use go_kis.Text.{
  Bytes, codes, text_eq, cut, trim_space, parse_int, has_prefix_byte, trim_left_blank, split_n,
  is_empty,
}
use go_kis.Ws.Crypto.Base64.{base64_decode}
use go_kis.Ws.Crypto.Padding.{IsPadded, unpad_pkcs7_iff}
use go_kis.Ws.Crypto.{Decoded, unpad_pkcs7, unpad_by, decode_material, has_length}
use go_kis.Ws.Execution.{Side, side_of_code, parse_side}
use go_kis.Ws.Frame.Parse.{IsWellFormed, render, parse_realtime_iff}
use go_kis.Ws.Frame.{RealtimeFrame, parse_realtime}

abbrev frame : RealtimeFrame
frame = record {
  encrypted = false;
  tr = codes "H0STCNT0";
  count = pos 1;
  payload = codes "005930|70000";
}

parse_realtime_iff_example : (parse_realtime (codes "0|H0STCNT0| 1|005930|70000") ≡ some frame) ↔ (
    (count : Bytes) × IsWellFormed frame count
    × (codes "0|H0STCNT0| 1|005930|70000" ≡ render frame count))
parse_realtime_iff_example = parse_realtime_iff (codes "0|H0STCNT0| 1|005930|70000") frame

parse_realtime_pipes : parse_realtime (codes "0|H0STCNT0| 1|005930|70000") ≡ some frame
unfolding parse_realtime cut text_eq trim_space parse_int has_prefix_byte trim_left_blank split_n
    is_empty
parse_realtime_pipes = refl

parse_realtime_refuses :
    (parse_realtime (codes " {\"header\"") ≡ none)
    × (parse_realtime (codes "2|A|1|x") ≡ none)
    × (parse_realtime (codes "0||1|x") ≡ none)
    × (parse_realtime (codes "0|A|one|x") ≡ none)
    × (parse_realtime (codes "0|A|1") ≡ none)
unfolding parse_realtime cut text_eq trim_space parse_int has_prefix_byte trim_left_blank split_n
    is_empty
parse_realtime_refuses = (refl, refl, refl, refl, refl)

abbrev padded : Bytes
padded = codes "hello" ++ replicate 11 11

unpad_pkcs7_iff_example :
    (unpad_pkcs7 padded 16 ≡ Decoded.ok (codes "hello"))
    ↔ ((k : ℕ) × IsPadded 16 padded (codes "hello") k)
unpad_pkcs7_iff_example = unpad_pkcs7_iff 16 padded (codes "hello")

unpad_hello : unpad_pkcs7 padded 16 ≡ Decoded.ok (codes "hello")
unfolding unpad_pkcs7 unpad_by text_eq
unpad_hello = refl

parse_int_range :
    (parse_int (codes "-9223372036854775808") ≡ some (negsuc 9223372036854775807))
    × (parse_int (codes "9223372036854775808") ≡ none)
    × (parse_int (codes "+") ≡ none)
unfolding parse_int
parse_int_range = (refl, refl, refl)

-- A key of 16 bytes that is valid Base64 is taken literally; one of 24 characters in Base64 is
-- taken literally too where 24 is a wanted length, and decoded for an IV.
material_literal_first :
    (decode_material (codes "MDEyMzQ1Njc4OWFiY2RlZg==") (16 ∷ 24 ∷ 32 ∷ [])
      ≡ Decoded.ok (codes "MDEyMzQ1Njc4OWFiY2RlZg=="))
    × (decode_material (codes "MDEyMzQ1Njc4OWFiY2RlZg==") (16 ∷ [])
        ≡ Decoded.ok (codes "0123456789abcdef"))
unfolding decode_material has_length base64_decode
material_literal_first = (refl, refl)

sides :
    (parse_side (codes " 02 ") ≡ Side.buy)
    × (parse_side (codes "S") ≡ Side.sell)
    × (parse_side (codes "sell") ≡ Side.unknown)
unfolding parse_side text_eq trim_space side_of_code
sides = (refl, refl, refl)
