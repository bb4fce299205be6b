-- ===== src/Proto/Exchange/Limits.antt =====
-- The window of an exchange.
use tokumai.Base.{ℕ, ◌+◌, ◌-◌, ◌≤◌, List, length, length-take, arith}
use tokumai.Proto.Exchange.{Exchange, to_send, in_flight, resized, idle}

-- Where no more of the missing numbers are in flight than the window allows, they and what
-- `to_send` sends are together no more than the window.
pub to_send-window :
    (missing : List ℕ) (window now_ms : ℕ) (x : Exchange)
    → in_flight (resized missing x.asked) now_ms missing ≤ window
    → in_flight (resized missing x.asked) now_ms missing
        + length (to_send missing window now_ms x).0
      ≤ window
unfolding to_send
to_send-window missing window now_ms x le =
    let asked = resized missing x.asked in
    let l = length-take (window - in_flight asked now_ms missing) (idle asked now_ms missing) in
    omega arith
