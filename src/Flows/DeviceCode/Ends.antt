-- ===== src/Flows/DeviceCode/Ends.antt =====
-- How a run of flows/device-code.ts ends.
use protocol_lens.Prelude.{ℕ}
use protocol_lens.Flow.Env.{Env}
use protocol_lens.Flows.Endings.{Completes, completes_rules, MayEnd, ends_rules}
use protocol_lens.Flows.DeviceCode.{attempt, perform}
use protocol_lens.Flows.DeviceCode.Poll.{DeviceConfig}

module _ (env : Env) (ticks : ℕ) (c : DeviceConfig) where
  Completes-attempt : Completes (attempt env ticks c)
  unfolding attempt
  Completes-attempt = search completes_rules

  pub MayEnd-perform : MayEnd env (attempt env ticks c) (perform env ticks c)
  unfolding perform
  MayEnd-perform = search (ends_rules, Completes-attempt)
