-- ===== src/Flows/DeviceCode/Steps.antt =====
-- `Respects` for the methods of flows/device-code.ts.
use protocol_lens.Prelude.{ℕ}
use protocol_lens.Js.Value.{Value}
use protocol_lens.Flow.Env.{Env}
use protocol_lens.Flow.Respects.{Rel, Law, Respects}
use protocol_lens.Flow.Steps.{step_rules}
use protocol_lens.Flows.Grant.Steps.{Respects-guarded, Respects-complete}
use protocol_lens.Flows.DeviceCode.Poll.{DeviceConfig, DeviceAuth}
use protocol_lens.Flows.DeviceCode.Poll.Steps.{Respects-poll_for_token}
use protocol_lens.Flows.DeviceCode.{
  read_auth, refuse, accept, request_device_authorization, show_codes, attempt, perform,
}

module _ {env : Env} {R : Rel} (law : Law env R) where
  Respects-read_auth : (content : Value) → Respects R (read_auth env content)
  unfolding read_auth
  Respects-read_auth content = search step_rules depth 16

  Respects-accept : (c : DeviceConfig) (content : Value) → Respects R (accept env c content)
  unfolding accept
  Respects-accept c content = search (step_rules, Respects-read_auth)

  Respects-refuse : (content : Value) → Respects R (refuse env content)
  unfolding refuse
  Respects-refuse content = search step_rules

  Respects-request_device_authorization :
      (c : DeviceConfig) → Respects R (request_device_authorization env c)
  unfolding request_device_authorization
  Respects-request_device_authorization c =
      search (step_rules, Respects-accept, Respects-refuse) depth 8

  Respects-show_codes : (auth : DeviceAuth) → Respects R (show_codes env auth)
  unfolding show_codes
  Respects-show_codes auth = search step_rules

  pub Respects-perform : (ticks : ℕ) (c : DeviceConfig) → Respects R (perform env ticks c)
  unfolding perform attempt
  Respects-perform ticks c =
      search
        (
          step_rules, Respects-guarded, Respects-complete, Respects-request_device_authorization,
          Respects-show_codes, Respects-poll_for_token,
        )
        depth 9
