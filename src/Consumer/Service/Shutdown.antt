-- ===== src/Consumer/Service/Shutdown.antt =====
-- The end of consumer/main.py.
use crypto_streaming_lakehou.Base.{◌≡◌, refl, Bool, false, [], if◌then◌else◌}
use crypto_streaming_lakehou.Consumer.Buffer.{stopped}
use crypto_streaming_lakehou.Consumer.Threads.Sequential.{flush_idle}
use crypto_streaming_lakehou.Consumer.Service.{Service, all_of, shut_down}

-- The `finally` block, met with no flush in progress. If the database takes the last batch, all
-- messages are stored and none is buffered; if not, the process ends with the buffered messages in
-- memory, though they have been acknowledged. The timer is cancelled in both cases.
pub shut_down_lem :
    (success : Bool) (s : Service)
    → s.shared.object.flushing ≡ false
    → let s' = (shut_down success s).shared in
      (s'.stored ≡ (if success then all_of s.shared else s.shared.stored))
      × (s'.object.buffer ≡ (if success then [] else s.shared.object.buffer))
      × (s'.object.timer ≡ stopped)
unfolding shut_down
shut_down_lem success s off =
    let (kept, taken) = flush_idle success s.shared off in (taken, kept, refl)
