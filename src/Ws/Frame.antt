-- ===== src/Ws/Frame.antt =====
-- kis/ws/frame.go: the pipe-delimited realtime message and its fields.
pub mod Parse
pub mod Fields
use go_kis.Prelude.{
  ℕ, Bool, false, not, ◌&&◌, ◌||◌, List, [], ◌∷◌, Option, none, some, if◌then◌else◌, length, get_or,
  ℤ, leb, pos, negsuc,
}
use go_kis.Text.{
  Bytes, codes, text_eq, is_empty, trim_space, trim_left_blank, has_prefix_byte, contains_byte,
  split, split_n, parse_int,
}

abbrev pub tr_execution_live : Bytes
tr_execution_live = codes "H0STCNI0"

abbrev pub tr_execution_vts : Bytes
tr_execution_vts = codes "H0STCNI9"

abbrev pub tr_quote_price : Bytes
tr_quote_price = codes "H0STCNT0"

abbrev pub tr_quote_book : Bytes
tr_quote_book = codes "H0STASP0"

pub record RealtimeFrame : Type 0 where
  pub encrypted : Bool
  pub tr : Bytes
  pub count : ℤ
  pub payload : Bytes

-- The tests on the four parts, in the source's order.
unfoldable pub frame_of_parts : List Bytes → Option RealtimeFrame
frame_of_parts (flag ∷ tr ∷ count ∷ payload ∷ []) =
    if not (text_eq flag (codes "0")) && not (text_eq flag (codes "1"))
    then none
    else elim (parse_int (trim_space count)) [
      | none ↦ none
      | some n ↦
          if is_empty tr
          then none
          else some (record {
            encrypted = text_eq flag (codes "1");
            tr = tr;
            count = n;
            payload = payload;
          })
    ]
frame_of_parts _ = none

unfoldable pub parse_realtime : Bytes → Option RealtimeFrame
unfolding frame_of_parts
parse_realtime raw =
    if has_prefix_byte b'{' (trim_left_blank raw) then none else frame_of_parts (split_n b'|' 4 raw)

-- The loop over the segments: empty ones are dropped.
unfoldable pub drop_empty : List Bytes → List Bytes
drop_empty [] = []
drop_empty (x ∷ xs) = if is_empty x then drop_empty xs else x ∷ drop_empty xs

unfoldable pub split_fields : Bytes → List Bytes
unfolding drop_empty
split_fields payload =
    if contains_byte b'^' payload then split b'^' payload else drop_empty (split b'|' payload)

-- An index out of range gives the empty text.
unfoldable pub field : List Bytes → ℤ → Bytes
field fields (negsuc n) = []
field fields (pos n) = if leb (length fields) n then [] else get_or fields n []
