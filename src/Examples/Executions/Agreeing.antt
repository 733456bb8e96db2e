-- ===== src/Examples/Executions/Agreeing.antt =====
-- The parts of a prepared program belong to one environment.
use go_kis.Prelude.{ℕ, ◌≡◌, ◌≢◌, ◌⊎◌, refl, inr, true, [], some, arith}
use go_kis.Text.{Bytes, codes, is_empty_iff, text_eq_iff}
use go_kis.Kis.Host.{host_vts, host_live}
use go_kis.Kis.Mode.{mock, live, transaction_id}
use go_kis.Kis.Subscribe.{endpoint_vts, endpoint_live}
use go_kis.Ws.Dial.{Dialed, DialResult, dial, Opened, buffer_size, new_conn}
use go_kis.Ws.Dial.Opening.{dial_iff}
use go_kis.Ws.Execution.{is_execution}
use go_kis.Ws.Frame.{tr_execution_vts, tr_execution_live}
use go_kis.Examples.Executions.{
  Setup, Prepared, env_or, target, setup_of, with_execution, with_target, prepare,
}

-- The mode, the REST host, the endpoint and the transaction of one environment.
abbrev pub IsEnvironment : Bytes → Setup → Type 0
IsEnvironment mode s =
    ((mode ≡ mock)
      × (s.client.host ≡ host_vts)
      × (s.stream.endpoint ≡ endpoint_vts)
      × (s.execution ≡ tr_execution_vts))
    ⊎ ((mode ≡ live)
        × (s.client.host ≡ host_live)
        × (s.stream.endpoint ≡ endpoint_live)
        × (s.execution ≡ tr_execution_live))

pub record IsAgreeing (getenv : Bytes → Bytes) (key : Bytes) (t : ℕ) (s : Setup) : Type 0 where
  pub environment : IsEnvironment (env_or getenv (codes "KIS_MODE") mock) s
  pub streams_executions : is_execution s.execution ≡ true
  pub hts_id : s.hts_id ≢ []
  pub opened : Opened
  pub opens : dial s.stream (some key) (Dialed.transport t) ≡ DialResult.opened opened
  pub on_endpoint : opened.conn.endpoint ≡ s.stream.endpoint

prepare-IsEnvironment :
    (getenv : Bytes → Bytes) {s : Setup}
    → prepare getenv ≡ Prepared.ready s
    → IsEnvironment (env_or getenv (codes "KIS_MODE") mock) s
      × (s.hts_id ≢ [])
      × (s.stream.has_dialer ≡ true)
      × (s.stream.has_client ≡ true)
unfolding prepare with_target with_execution target transaction_id setup_of
prepare-IsEnvironment getenv {s} h =
    let mode = env_or getenv (codes "KIS_MODE") mock in
    ground (
      arith,
      text_eq_iff mode mock,
      text_eq_iff mode live,
      is_empty_iff (getenv (codes "KIS_HTS_ID")),
    )

environment-opens :
    (mode : Bytes) (s : Setup)
    → IsEnvironment mode s
    → (is_execution s.execution ≡ true)
      × ((s.stream.endpoint ≡ endpoint_vts) ⊎ (s.stream.endpoint ≡ endpoint_live))
unfolding is_execution
environment-opens mode s h =
    ground (
      arith,
      h,
      text_eq_iff s.execution tr_execution_vts,
      text_eq_iff s.execution tr_execution_live,
    )

-- What the program prepares from its environment agrees: KIS_MODE, or mock where it is not set,
-- decides the REST host, the WebSocket endpoint and the transaction alike, the transaction is one
-- whose events are read as executions, and there is an HTS ID. With any approval key that is not
-- empty and any socket, Dial opens the connection on that endpoint.
pub prepare-IsAgreeing :
    (getenv : Bytes → Bytes) (key : Bytes) (t : ℕ) {s : Setup}
    → prepare getenv ≡ Prepared.ready s
    → key ≢ []
    → IsAgreeing getenv key t s
unfolding new_conn
prepare-IsAgreeing getenv key t {s} h given =
    let (environment, hts_id, dialer, client) = prepare-IsEnvironment getenv h in
    let (execution, allowed) =
      environment-opens (env_or getenv (codes "KIS_MODE") mock) s environment in
    let o : Opened = record {
      conn = new_conn s.stream s.stream.endpoint key t;
      buffer = buffer_size s.stream.event_buffer;
    } in
    record {
      environment = environment;
      streams_executions = execution;
      hts_id = hts_id;
      opened = o;
      opens = (dial_iff s.stream (some key) (Dialed.transport t) o).1 (record {
        key = key;
        socket = t;
        allowed = allowed;
        dialer = dialer;
        provider = inr client;
        key_given = refl;
        key_ne_nil = given;
        socket_given = refl;
        conn = refl;
        buffer = refl;
      });
      on_endpoint = refl;
    }
