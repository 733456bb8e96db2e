-- ===== src/Ws/Frame/Parse.antt =====
-- What parseRealtime accepts, and what it returns for it.
use go_kis.Prelude.{
  ℕ, ◌≡◌, ◌≢◌, refl, sym, ap, ◌∙◌, false, List, [], ◌∷◌, ◌++◌, ◌↔◌, some, arith, if◌then◌else◌,
  ◌==◌,
}
use go_kis.Text.{
  Bytes, codes, text_eq, text_eq_iff, is_empty, trim_space, trim_left_blank, has_prefix_byte,
  contains_byte, split_n, split_n-append, split_n-AllButLastFree, join, join-split_n, parse_int,
}
use go_kis.Ws.Frame.{RealtimeFrame, frame_of_parts, parse_realtime}

-- The text of a frame whose count is written as `count`.
abbrev pub render : RealtimeFrame → Bytes → Bytes
render f count =
    (if f.encrypted then b'1' else b'0') ∷ b'|' ∷ (f.tr ++ (b'|' ∷ (count ++ (b'|' ∷ f.payload))))

-- What a frame and the text of its count satisfy.
pub record IsWellFormed (f : RealtimeFrame) (count : Bytes) : Type 0 where
  pub tr_ne_nil : f.tr ≢ []
  pub tr_free : contains_byte b'|' f.tr ≡ false
  pub count_free : contains_byte b'|' count ≡ false
  pub count_value : parse_int (trim_space count) ≡ some f.count

split_n-render :
    (flag : ℕ) (tr count payload : Bytes)
    → (flag == b'|') ≡ false
    → contains_byte b'|' tr ≡ false
    → contains_byte b'|' count ≡ false
    → split_n b'|' 4 (flag ∷ b'|' ∷ (tr ++ (b'|' ∷ (count ++ (b'|' ∷ payload)))))
      ≡ (flag ∷ []) ∷ tr ∷ count ∷ payload ∷ []
split_n-render flag tr count payload hf ht hc =
    split_n-append b'|' 2 (flag ∷ []) _ (unfold contains_byte in rw hf)
    ∙ ap (λ t. (flag ∷ []) ∷ t)
        (split_n-append b'|' 1 tr _ ht
          ∙ ap (λ t. tr ∷ t) (split_n-append b'|' 0 count payload hc ∙ unfold split_n in refl))

frame_of_parts-render :
    (f : RealtimeFrame) (count : Bytes)
    → IsWellFormed f count
    → frame_of_parts (((if f.encrypted then b'1' else b'0') ∷ []) ∷ f.tr ∷ count ∷ f.payload ∷ [])
      ≡ some f
unfolding frame_of_parts is_empty text_eq
frame_of_parts-render f count w = ground arith

-- A frame that is written out is read back, whatever its payload holds, pipes included.
pub parse_realtime-render :
    (f : RealtimeFrame) (count : Bytes)
    → IsWellFormed f count
    → parse_realtime (render f count) ≡ some f
unfolding parse_realtime has_prefix_byte trim_left_blank
parse_realtime-render f count w = ground (
  arith,
  frame_of_parts-render f count w,
  split_n-render 48 f.tr count f.payload refl w.tr_free w.count_free,
  split_n-render 49 f.tr count f.payload refl w.tr_free w.count_free,
)

-- The parts of an accepted frame.
record Parts (f : RealtimeFrame) (parts : List Bytes) : Type 0 where
  flag : Bytes
  count : Bytes
  are : parts ≡ flag ∷ f.tr ∷ count ∷ f.payload ∷ []
  flag_is : flag ≡ (if f.encrypted then b'1' else b'0') ∷ []
  tr_ne_nil : f.tr ≢ []
  value : parse_int (trim_space count) ≡ some f.count

frame_of_parts-Parts :
    (parts : List Bytes) {f : RealtimeFrame} → frame_of_parts parts ≡ some f → Parts f parts
unfolding frame_of_parts is_empty
frame_of_parts-Parts (flag ∷ tr ∷ count ∷ payload ∷ []) h = record {
  flag = flag;
  count = count;
  are = ground arith;
  flag_is = ground (arith, text_eq_iff flag (codes "0"), text_eq_iff flag (codes "1"));
  tr_ne_nil = ground arith;
  value = ground arith;
}
frame_of_parts-Parts _ h = cc

Parts-render :
    (raw : Bytes) {f : RealtimeFrame}
    → Parts f (split_n b'|' 4 raw)
    → (count : Bytes) × IsWellFormed f count × (raw ≡ render f count)
Parts-render raw {f} p =
    let free = rw p.are at (split_n-AllButLastFree b'|' 3 raw) in
    let joined = rw p.are at (join-split_n b'|' 3 raw) in
    (
      p.count,
      record {
        tr_ne_nil = p.tr_ne_nil;
        tr_free = free.1.0;
        count_free = free.1.1.0;
        count_value = p.value;
      },
      sym joined ∙ (unfold join in rw p.flag_is),
    )

-- `parseRealtime` returns `f` exactly for the texts flag|tr|count|payload of `f`: the flag is one
-- byte, the transaction ID is not empty, neither it nor the count holds a pipe, and the count
-- reads as the number of `f`, white space around it aside.
pub parse_realtime_iff :
    (raw : Bytes) (f : RealtimeFrame)
    → (parse_realtime raw ≡ some f)
      ↔ ((count : Bytes) × IsWellFormed f count × (raw ≡ render f count))
unfolding parse_realtime
parse_realtime_iff raw f = (
  λ h. Parts-render raw (frame_of_parts-Parts (split_n b'|' 4 raw) (ground arith)),
  λ (count, w, e). rw e (parse_realtime-render f count w),
)
