-- ===== src/Tests/Notices.antt =====
-- Material, and an encrypted notice, at concrete inputs.
use go_kis.Prelude.{
  ◌≡◌, ◌≢◌, refl, true, List, [], ◌∷◌, ◌++◌, Bool, ◌&&◌, ltb, length, Option, none, some, arith,
  pos, All,
}
use go_kis.Text.{
  Bytes, codes, contains_byte, has_prefix_byte, join, parse_int, text_eq, is_empty, trim_left_blank,
  trim_space,
}
use go_kis.Text.Split.Joined.{IsFree}
use go_kis.Kis.Subscribe.{Subscribe, endpoint_vts}
use go_kis.Ws.Conn.{Conn, Effect, Outcome, PendingAck, logged, tr_type_subscribe}
use go_kis.Ws.Crypto.Usable.{IsUsable}
use go_kis.Ws.System.Material.{perform-dial-IsUsable}
use go_kis.Ws.Crypto.{AesMaterial, CryptoError, err, decrypt, has_length, key_lengths, ok}
use go_kis.Ws.Crypto.Base64.Encoding.{IsByte}
use go_kis.Ws.Execution.{is_execution}
use go_kis.Ws.Crypto.Blocks.{IsBlock, IsCipher}
use go_kis.Ws.Crypto.RoundTrip.{encrypt, decrypt-encrypt}
use go_kis.Ws.Dial.{Dialed, Opened, dial, new_conn, opened}
use go_kis.Ws.Errors.{WsError}
use go_kis.Ws.Frame.{RealtimeFrame, parse_realtime, tr_execution_vts}
use go_kis.Ws.Frame.Parse.{render, IsWellFormed}
use go_kis.Ws.Reader.{AckMessage, failure_of, handle, lookup, material_for}
use go_kis.Ws.Reader.Notice.{notice_of, notice_delivered}
use go_kis.Ws.Reconnect.{Move, Pc, Session}
use go_kis.Ws.System.{Action, perform, start}
use go_kis.Tests.Samples.{plain_block, sample_unmarshal, busy, calm, config}

abbrev aes : AesMaterial
aes = record { key = codes "0123456789abcdef"; iv = codes "fedcba9876543210" }

plain-IsCipher : IsCipher (plain_block aes.key) (plain_block aes.key)
plain-IsCipher = record { inverts = λ b h. refl; keeps = λ b h. h }

abbrev all_bytes : Bytes → Bool
all_bytes [] = true
all_bytes (b ∷ s) = ltb b 256 && all_bytes s

all_bytes_sound : (s : Bytes) → all_bytes s ≡ true → All IsByte s
all_bytes_sound [] h = tt
all_bytes_sound (b ∷ s) h = (ground arith, all_bytes_sound s (ground arith))

iv-IsBlock : IsBlock aes.iv
iv-IsBlock = (refl, all_bytes_sound aes.iv refl)

key-usable : has_length (length aes.key) key_lengths ≡ true
unfolding has_length
key-usable = refl

abbrev spaced : Bytes
spaced = codes " 005930^70000 "

decrypt-encrypt_example :
    decrypt plain_block aes (encrypt plain_block aes spaced) ≡ ok (trim_space spaced)
decrypt-encrypt_example =
    decrypt-encrypt plain_block plain_block aes spaced plain-IsCipher key-usable iv-IsBlock
      (all_bytes_sound spaced refl)

abbrev notice_fields : List Bytes
notice_fields =
    codes "id"
    ∷ codes "12345678"
    ∷ codes "77"
    ∷ []
    ∷ codes "02"
    ∷ []
    ∷ []
    ∷ []
    ∷ codes "005930"
    ∷ codes "3"
    ∷ codes "70000"
    ∷ codes "091500"
    ∷ []
    ∷ codes "2"
    ∷ []

abbrev notice_frame : RealtimeFrame
notice_frame = record {
  encrypted = true;
  tr = tr_execution_vts;
  count = pos 1;
  payload = encrypt plain_block aes (join b'^' notice_fields);
}

abbrev keyed : Conn
keyed = record busy { material = (tr_execution_vts, aes) ∷ [] }

notice-material : material_for keyed tr_execution_vts ≡ some aes
unfolding material_for lookup text_eq
notice-material = refl

notice-execution : is_execution tr_execution_vts ≡ true
unfolding is_execution text_eq
notice-execution = refl

notice-IsWellFormed : IsWellFormed notice_frame (codes "1")
unfolding contains_byte parse_int trim_space
notice-IsWellFormed = record {
  tr_ne_nil = λ e. cc;
  tr_free = refl;
  count_free = refl;
  count_value = refl;
}

notice-IsFree : All (IsFree b'^') notice_fields
unfolding contains_byte
notice-IsFree = (
  refl,
  (
    refl,
    (
      refl,
      (refl, (refl, (refl, (refl, (refl, (refl, (refl, (refl, (refl, (refl, (refl, tt))))))))))),
    ),
  ),
)

notice-trimmed : trim_space (join b'^' notice_fields) ≡ join b'^' notice_fields
unfolding trim_space join
notice-trimmed = refl

notice-bytes : All IsByte (join b'^' notice_fields)
unfolding join
notice-bytes = all_bytes_sound (join b'^' notice_fields) refl

notice_delivered_example :
    handle plain_block sample_unmarshal keyed calm (render notice_frame (codes "1")) ≡ (
      record keyed {
        events =
            []
            ++ (notice_of notice_fields tr_execution_vts (render notice_frame (codes "1")) 5 ∷ []);
      },
      none,
    )
notice_delivered_example =
    notice_delivered plain_block plain_block sample_unmarshal keyed calm aes notice_frame
      notice_fields (codes "1") plain-IsCipher key-usable iv-IsBlock notice-material
      notice-execution refl refl notice-IsWellFormed refl notice-IsFree notice-bytes notice-trimmed
      refl

-- An ACK that brings material, and the history that receives it.
abbrev key_ack : AckMessage
key_ack = record {
  header = record { tr_id = tr_execution_vts };
  body = record {
    rt_cd = codes "0";
    msg_cd = codes "OPSP0000";
    msg1 = [];
    output = record { iv = aes.iv; key = aes.key };
  };
}

abbrev key_unmarshal : Bytes → Option AckMessage
key_unmarshal raw = some key_ack

abbrev key_opened : Opened
key_opened = record { conn = new_conn config endpoint_vts (codes "k") 7; buffer = 256 }

key-dialed : dial config (some (codes "k")) (Dialed.transport 7) ≡ opened key_opened
unfolding dial go_kis.Kis.Subscribe.validate_ws_url text_eq is_empty go_kis.Ws.Dial.buffer_size
key-dialed = refl

abbrev key_history : List Action
key_history = Action.reader (Move.receive calm (codes "{key}")) ∷ []

key-stored :
    material_for
      (perform plain_block key_unmarshal (start key_opened.conn) key_history).conn
      tr_execution_vts
    ≡ some aes
unfolding perform material_for lookup text_eq is_empty handle parse_realtime has_prefix_byte
    trim_left_blank trim_space has_length go_kis.Ws.System.act go_kis.Ws.Reconnect.move new_conn
    go_kis.Ws.Errors.classify_ack go_kis.Text.elem go_kis.Ws.Conn.take_pending
    go_kis.Ws.Conn.take_first go_kis.Ws.Reader.store_material go_kis.Ws.Reader.ack_tr
    go_kis.Ws.Crypto.new_material go_kis.Ws.Crypto.decode_material go_kis.Ws.Reader.insert
key-stored = refl

perform-dial-IsUsable_example :
    IsUsable aes × (decrypt plain_block aes (codes "!") ≢ err CryptoError.bad_material)
perform-dial-IsUsable_example =
    perform-dial-IsUsable plain_block key_unmarshal config (some (codes "k")) (Dialed.transport 7)
      key_history tr_execution_vts (codes "!") key-dialed key-stored
