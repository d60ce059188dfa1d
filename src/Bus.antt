-- ===== src/Bus.antt =====
-- ssd_bus.cpp and ssd_ram.cpp: the channels between controller and packages, and the delays of the
-- buffer memory.
pub mod Returns
use mnftl.Base.{ℕ, ◌*◌, Option, List, ltb, Run, ok, ◌>>=◌, ◌>>◌, assert, fetch, set, replicate}
use mnftl.Config.{Config, Status, success}
use mnftl.Event.{Event, incr_time_taken}
use mnftl.Channel
use mnftl.Channel.{Channel}

-- `class Bus` of ssd.h.
pub record Bus : Type 0 where
  pub num_channels : ℕ
  pub channels : List Channel

-- `Bus::Bus`
unfoldable pub new_bus : Config → Bus
new_bus c = record {
  num_channels = c.ssd_size;
  channels = replicate c.ssd_size (Channel.new_channel c);
}

-- `Bus::lock`
unfoldable pub lock : ℕ → ℕ → ℕ → Event → Bus → Run (Status × Event × Bus)
lock channel start duration e bus = do
  assert (ltb 0 duration)
  ch ← fetch bus.channels channel
  (s, e', ch') ← Channel.lock start duration e ch
  ok (s, e', record bus { channels = set bus.channels channel ch' })

-- `Bus::ready_time`
pub ready_time : ℕ → Bus → Run (Option ℕ)
ready_time channel bus = do
  assert (ltb channel bus.num_channels)
  ch ← fetch bus.channels channel
  ok ch.ready_at

-- `Ram::read` and `Ram::write`
unfoldable pub ram_read : Config → Event → Status × Event
ram_read c e = (success, incr_time_taken (c.ram_read_delay * e.size) e)

unfoldable pub ram_write : Config → Event → Status × Event
ram_write c e = (success, incr_time_taken (c.ram_write_delay * e.size) e)
