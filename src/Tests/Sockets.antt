-- ===== src/Tests/Sockets.antt =====
-- Runs of `useWebSocket` on a page that takes every URL.
use protocol_lens.Prelude.{suc, ◌+◌, ◌*◌, ◌≤◌, true, some, ◌≡◌, ◌≢◌, refl, arith, length}
use protocol_lens.Hooks.Socket.{
  SocketOptions, Page, Hook, connecting, closing, closed, initial_hook, set_phase, connect, on_open,
  on_close, on_timer, disconnect, full_url,
}
use protocol_lens.Hooks.Socket.Runs.{Run, mounted, opens, closes, server_closes, fired}
use protocol_lens.Hooks.Socket.Bound.{live, reconnects_bounded}
use protocol_lens.Hooks.Socket.Agreement.{up_at, connected-agrees}
use protocol_lens.Hooks.Socket.Calls.{disconnect-reconnects}

abbrev options : SocketOptions
options = record { url = some "/ws/lookingglass/7"; reconnect = true; max_reconnect_attempts = 10 }

abbrev page : Page
page = record { is_secure = true; host = "app.example"; accepts = λ url. true }

-- The first socket fails, and the second opens.
abbrev first : Hook
first = connect options page initial_hook

abbrev failed : Hook
failed = on_close options 0 first

abbrev second : Hook
second = on_timer options page 0 failed

abbrev last : Hook
last = on_open 1 second

not_closed : connecting ≢ closed
not_closed e = absurd (ground (arith, e))

second_opens : Run options page last 1
unfolding connect on_close on_timer on_open full_url
second_opens =
    opens second 0 1 (fired failed 0 0 (closes first 0 0 connecting mounted refl not_closed) refl)
      refl

-- The server starts to close the second.
abbrev ending : Hook
ending = record last { sockets = set_phase 1 closing last.sockets }

ending_runs : Run options page ending 1
unfolding connect on_close on_timer on_open full_url
ending_runs = server_closes last 1 1 second_opens refl

reconnects_bounded_example :
    (length last.sockets ≤ (1 + 1) * 10 + 1)
    × (live last.sockets + length last.timers ≤ 1)
    × (last.reconnect_attempts ≤ 10)
reconnects_bounded_example = reconnects_bounded options page last 1 second_opens

connected-agrees_example : ending.connected ≡ up_at ending.current ending.sockets
connected-agrees_example = connected-agrees options page ending 1 ending_runs

current_second : last.current ≡ some 1
unfolding connect on_close on_timer on_open full_url
current_second = refl

disconnect-reconnects_example :
    let again = on_timer options page last.next_timer (on_close options 1 (disconnect last)) in
    ((on_close options 1 (disconnect last)).last_timer ≡ some last.next_timer)
    × (length again.sockets ≡ suc (length last.sockets))
    × (again.current ≡ some (length last.sockets))
unfolding connect on_close on_timer on_open full_url
disconnect-reconnects_example =
    disconnect-reconnects options page last 1 "/ws/lookingglass/7" refl refl refl refl refl
      (omega arith)
