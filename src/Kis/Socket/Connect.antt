-- ===== src/Kis/Socket/Connect.antt =====
-- When a socket of package kis is opened, and what it does with a frame.
use go_kis.Prelude.{
  ℕ, ◌≡◌, ◌≢◌, ◌↔◌, ◌⊎◌, refl, inl, inr, ap, sym, ◌∙◌, Bool, true, false, [], ◌∷◌, Option, none,
  some, arith, Option-cases, Bool-cases,
}
use go_kis.Text.{Bytes, text_eq, text_eq_iff, is_empty_iff}
use go_kis.Kis.ApprovalKey.{approval_path, approval_request, issued_key, issue_approval_key}
use go_kis.Kis.Client.{Client, Exchange, transmit}
use go_kis.Kis.Response.{RestResult, check_response}
use go_kis.Kis.Socket.{
  WebSocket, Connected, Written, dial_with, with_key, connect_to, connect_ws, pong_message,
  ping_pong, socket_handle,
}
use go_kis.Kis.Subscribe.{endpoint_live, endpoint_vts}
use go_kis.Kis.Subscribe.Allowed.{validate_ws_url-cases, validate_ws_url_allowed}

module _ (rt_cd_of : Bytes → Option Bytes) (string_of : Bytes → Option Bytes)
    (key_error : Bytes → Option ℕ) (key_of : Bytes → Bytes) where
  issued_key-ne-nil :
      (r : RestResult) {key : Bytes}
      → issued_key rt_cd_of string_of key_error key_of r ≡ some key
      → key ≢ []
  unfolding issued_key
  issued_key-ne-nil (RestResult.rejected e) h = absurd (cc)
  issued_key-ne-nil (RestResult.accepted raw) h = λ e. ground (arith, is_empty_iff (key_of raw))

  issue_approval_key-ne-nil :
      (c : Client) (exchange : Exchange) {key : Bytes}
      → (issue_approval_key rt_cd_of string_of key_error key_of c exchange).1 ≡ some key
      → key ≢ []
  unfolding issue_approval_key transmit
  issue_approval_key-ne-nil c exchange h = elim (Bool-cases exchange.built) [
    | inl built ↦
        issued_key-ne-nil
          (transmit c approval_request exchange
            (check_response rt_cd_of string_of key_error false true approval_path)).1
          (rw (built, issue_approval_key) at h)
    | inr refused ↦ absurd (ground arith)
  ]

  -- One dial of an allowed endpoint, after the key that the socket keeps was issued.
  pub record IsConnected (c : Client) (has_dialer : Bool) (endpoint : Bytes) (exchange : Exchange)
      (reply : Option ℕ) (w : WebSocket) : Type 0 where
    pub dialer : has_dialer ≡ true
    pub allowed : (endpoint ≡ endpoint_vts) ⊎ (endpoint ≡ endpoint_live)
    pub key :
        (issue_approval_key rt_cd_of string_of key_error key_of c exchange).1 ≡ some w.approval
    pub key_ne_nil : w.approval ≢ []
    pub connection : reply ≡ some w.connection

  with_key-IsConnected :
      (endpoint : Bytes) (reply : Option ℕ) (issued : Client × Option Bytes) (w : WebSocket)
      → (with_key endpoint reply issued).result ≡ Connected.socket w
      → (issued.1 ≡ some w.approval) × (reply ≡ some w.connection)
  unfolding with_key dial_with
  with_key-IsConnected endpoint reply (c, none) w h = absurd (cc)
  with_key-IsConnected endpoint none (c, some key) w h = absurd (cc)
  with_key-IsConnected endpoint (some n) (c, some key) w h = ground arith

  with_key-given :
      (endpoint : Bytes) (reply : Option ℕ) (issued : Client × Option Bytes) (w : WebSocket)
      → issued.1 ≡ some w.approval
      → reply ≡ some w.connection
      → with_key endpoint reply issued
        ≡ record { client = issued.0; dialed = endpoint ∷ []; result = Connected.socket w }
  unfolding with_key dial_with
  with_key-given endpoint reply (c, none) w h k = absurd (cc)
  with_key-given endpoint none (c, some key) w h k = absurd (cc)
  with_key-given endpoint (some n) (c, some key) w h k =
      let key_eq : key ≡ w.approval = cc in
      let n_eq : n ≡ w.connection = cc in rw (key_eq, n_eq) refl

  connect_ws-IsConnected :
      (c : Client) (has_dialer : Bool) (endpoint : Bytes) (exchange : Exchange) (reply : Option ℕ)
      (w : WebSocket)
      → (connect_ws rt_cd_of string_of key_error key_of c has_dialer endpoint exchange reply).result
        ≡ Connected.socket w
      → IsConnected c has_dialer endpoint exchange reply w
  unfolding connect_ws
  connect_ws-IsConnected c false endpoint exchange reply w h = absurd (cc)
  connect_ws-IsConnected c true endpoint exchange reply w h =
      elim (validate_ws_url-cases endpoint) [
        | inl bad ↦ absurd (
            cc (
              sym (
                ap (λ v. (connect_to rt_cd_of string_of key_error key_of c exchange reply v).result)
                  bad)
              ∙ h))
        | inr (good, allowed) ↦
            let (key, connection) =
              with_key-IsConnected endpoint reply
                (issue_approval_key rt_cd_of string_of key_error key_of c exchange) w
                (sym (
                    ap
                      (λ v.
                        (connect_to rt_cd_of string_of key_error key_of c exchange reply v).result)
                      good)
                  ∙ h) in
            record {
              dialer = refl;
              allowed = allowed;
              key = key;
              key_ne_nil = issue_approval_key-ne-nil c exchange key;
              connection = connection;
            }
      ]

  IsConnected-connect_ws :
      (c : Client) (has_dialer : Bool) (endpoint : Bytes) (exchange : Exchange) (reply : Option ℕ)
      (w : WebSocket)
      → IsConnected c has_dialer endpoint exchange reply w
      → connect_ws rt_cd_of string_of key_error key_of c has_dialer endpoint exchange reply
        ≡ record {
          client = (issue_approval_key rt_cd_of string_of key_error key_of c exchange).0;
          dialed = endpoint ∷ [];
          result = Connected.socket w;
        }
  unfolding connect_ws
  IsConnected-connect_ws c has_dialer endpoint exchange reply w k = rw (k.dialer) (
      ap (connect_to rt_cd_of string_of key_error key_of c exchange reply)
        (validate_ws_url_allowed endpoint k.allowed)
      ∙ with_key-given endpoint reply
          (issue_approval_key rt_cd_of string_of key_error key_of c exchange) w k.key k.connection)

  -- ConnectWS gives a socket exactly where a dialer is there, the endpoint is one of the two
  -- allowed, a key is issued, which is not empty, and the dialer gives a connection; the socket is
  -- of these two.
  pub connect_ws_iff :
      (c : Client) (has_dialer : Bool) (endpoint : Bytes) (exchange : Exchange) (reply : Option ℕ)
      (w : WebSocket)
      → ((connect_ws rt_cd_of string_of key_error key_of c has_dialer endpoint exchange
            reply).result
          ≡ Connected.socket w)
        ↔ IsConnected c has_dialer endpoint exchange reply w
  connect_ws_iff c has_dialer endpoint exchange reply w = (
    connect_ws-IsConnected c has_dialer endpoint exchange reply w,
    λ k. ap (λ a. a.result) (IsConnected-connect_ws c has_dialer endpoint exchange reply w k),
  )

module _ (tr_id_of : Bytes → Option Bytes) where
  -- A frame whose header decodes to PINGPONG is answered by one pong with the same payload and
  -- never delivered; every other frame is delivered as it came, and nothing is written.
  pub socket_handle_cases :
      (w : WebSocket) (raw : Bytes)
      → ((tr_id_of raw ≡ some ping_pong)
          × ((socket_handle tr_id_of w raw).payload ≡ none)
          × ((socket_handle tr_id_of w raw).written
              ≡ Written.control w.connection pong_message raw ∷ []))
        ⊎ ((tr_id_of raw ≢ some ping_pong)
            × ((socket_handle tr_id_of w raw).payload ≡ some raw)
            × ((socket_handle tr_id_of w raw).written ≡ []))
  unfolding socket_handle
  socket_handle_cases w raw = elim (Option-cases (tr_id_of raw)) [
    | inl e ↦ inr (λ h. cc, rw (e, socket_handle) refl, rw (e, socket_handle) refl)
    | inr (tr, e) ↦ elim (Bool-cases (text_eq tr ping_pong)) [
      | inl ping ↦ inl (
        e ∙ ap some ((text_eq_iff tr ping_pong).0 ping),
        rw (e, socket_handle, ping) refl,
        rw (e, socket_handle, ping) refl,
      )
      | inr other ↦ inr (
        λ h. ground (arith, text_eq_iff tr ping_pong),
        rw (e, socket_handle, other) refl,
        rw (e, socket_handle, other) refl,
      )
    ]
  ]
