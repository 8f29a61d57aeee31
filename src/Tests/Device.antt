-- ===== src/Tests/Device.antt =====
-- Polls in the sample browser.
use protocol_lens.Prelude.{
  ℕ, ◌+◌, ◌*◌, ◌≤◌, ◌<◌, refl, ◌≢◌, false, Option, none, some, List, [], All, subst, arith,
}
use protocol_lens.Js.Value.{Value, undefined, str, num}
use protocol_lens.Flow.Env.{Env, WindowEvent}
use protocol_lens.Flow.Exec.{World, pending}
use protocol_lens.Flow.Yields.{NeverNull, HasProps}
use protocol_lens.Flow.Watching.{OnlyWatched, IsWatchingEvent}
use protocol_lens.Flows.DeviceCode.Poll.{DeviceAuth, poll_for_token}
use protocol_lens.Flows.DeviceCode.Poll.Timeout.{poll_for_token-settles}
use protocol_lens.Tests.{sample, device_config, sample_world}

abbrev auth : DeviceAuth
auth = record {
  device_code = str "GmRhmhcxhwAzkoEqiMEg_DnyEysNkuNhszIySk9eS";
  user_code = str "WDJB-MJHT";
  verification_uri = str "https://as.example/device";
  verification_uri_complete = undefined;
  expires_in = num 1800;
  interval = undefined;
}

abbrev running : World
running = record sample_world { controller = some false }

abbrev env : Env
env = sample []

abbrev AreWatching : Option (List WindowEvent) → Type 0
AreWatching none = Unit
AreWatching (some events) = All IsWatchingEvent events

env-OnlyWatched : OnlyWatched env
env-OnlyWatched = record { others = λ n. tt; popup = λ n url events e. subst AreWatching e tt }

abbrev HasOptProps : Option Value → Type 0
HasOptProps none = Unit
HasOptProps (some v) = HasProps v

env-NeverNull : NeverNull env
env-NeverNull = record { parsed = λ bytes v e. subst HasOptProps e tt }

late : (n : ℕ) → 1001 ≤ n → 0 + 1 * 1000 < n
late n h = omega arith

poll_for_token-settles_example : (poll_for_token env 1001 device_config auth running).0 ≢ pending
poll_for_token-settles_example =
    poll_for_token-settles env device_config auth 1001 1001 running env-OnlyWatched env-NeverNull tt
      late refl (omega arith)
