-- ===== src/Kis/Mode.antt =====
-- kis/types.go: the mode of a client and its transaction IDs.
use go_kis.Prelude.{◌≡◌, ◌≢◌, ◌⊎◌, Option, none, some, arith, if◌then◌else◌}
use go_kis.Text.{Bytes, codes, text_eq, text_eq_iff}

abbrev pub mock : Bytes
mock = codes "mock"

abbrev pub live : Bytes
live = codes "live"

-- `none` is ErrInvalidMode.
unfoldable pub transaction_id : Bytes → Bytes → Bytes → Option Bytes
transaction_id mode mock_id live_id =
    if text_eq mode mock then some mock_id else if text_eq mode live then some live_id else none

pub transaction_id-cases :
    (mode mock_id live_id : Bytes)
    → ((transaction_id mode mock_id live_id ≡ some mock_id) × (mode ≡ mock))
      ⊎ ((transaction_id mode mock_id live_id ≡ some live_id) × (mode ≡ live))
      ⊎ ((transaction_id mode mock_id live_id ≡ none) × (mode ≢ mock) × (mode ≢ live))
unfolding transaction_id
transaction_id-cases mode mock_id live_id =
    ground (arith, text_eq_iff mode mock, text_eq_iff mode live)
