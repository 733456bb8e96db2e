-- ===== src/Kis/Reads.antt =====
-- kis/request.go: the allowlist of reads, by path and transaction.
use go_kis.Prelude.{Bool, List, [], ◌∷◌, if◌then◌else◌}
use go_kis.Text.{Bytes, codes, text_eq, elem}

abbrev pub supported_reads : List (Bytes × List Bytes)
supported_reads =
    (
      codes "/uapi/domestic-stock/v1/trading/inquire-balance",
      codes "VTTC8434R" ∷ codes "TTTC8434R" ∷ [],
    )
    ∷ (
      codes "/uapi/domestic-stock/v1/trading/inquire-daily-ccld",
      codes "VTTC8001R" ∷ codes "TTTC8001R" ∷ [],
    )
    ∷ (
      codes "/uapi/overseas-stock/v1/trading/inquire-balance",
      codes "VTTS3012R" ∷ codes "TTTS3012R" ∷ [],
    )
    ∷ (
      codes "/uapi/overseas-stock/v1/trading/inquire-ccnl",
      codes "VTTS3035R" ∷ codes "TTTS3035R" ∷ [],
    )
    ∷ []

unfoldable pub reads_of : Bytes → List (Bytes × List Bytes) → List Bytes
reads_of path [] = []
reads_of path ((p, trs) ∷ reads) = if text_eq p path then trs else reads_of path reads

unfoldable pub supported : Bytes → Bytes → Bool
unfolding reads_of
supported path tr_id = elem tr_id (reads_of path supported_reads)
