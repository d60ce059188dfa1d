-- ===== src/Bus/Returns.antt =====
-- When `Bus::lock` returns.
use mnftl.Base.{
  ℕ, ◌≤◌, ◌<◌, ◌≡◌, ◌∙◌, arith, ltb, lt→ltb, le→leb, Returns, Returns-bind, Returns-assert,
  Returns-fetch, length, All, length-set, get_elem?_total, All_get, All-set,
}
use mnftl.Config.{Config, Status}
use mnftl.Event.{Event}
use mnftl.Channel
use mnftl.Channel.{Channel}
use mnftl.Bus.{Bus, lock}

abbrev pub IsConnected : Channel → Type 0
IsConnected ch = ch.num_connected ≤ ch.max_connections

pub record IsBus (c : Config) (b : Bus) : Type 0 where
  pub channels_length : length b.channels ≡ c.ssd_size
  pub connected : All IsConnected b.channels

channel_lock-Returns :
    (start duration : ℕ) (e : Event) (ch : Channel)
    → IsConnected ch
    → Returns (λ o. IsConnected o.2) (Channel.lock start duration e ch)
unfolding Channel.lock
channel_lock-Returns start duration e ch h = rw (le→leb ch.num_connected ch.max_connections h) h

pub lock-Returns :
    (c : Config) (channel start duration : ℕ) (e : Event) (b : Bus)
    → IsBus c b
    → channel < c.ssd_size
    → 0 < duration
    → Returns (λ o. IsBus c o.2) (lock channel start duration e b)
unfolding lock
lock-Returns c channel start duration e b h lt pos =
    let P = λ (o : Status × Event × Bus). IsBus c o.2 in
    let (ch, q) = get_elem?_total b.channels channel (let z = h.channels_length in omega arith) in
    Returns-assert P (ltb 0 duration) _ (lt→ltb 0 duration pos) (
      Returns-fetch P b.channels channel _ ch q (
        Returns-bind (λ (o : Status × Event × Channel). IsConnected o.2) P
          (Channel.lock start duration e ch) _
          (channel_lock-Returns start duration e ch
            (All_get IsConnected b.channels channel h.connected q))
          λ o k. record {
            channels_length = length-set b.channels channel o.2 ∙ h.channels_length;
            connected = All-set IsConnected b.channels channel o.2 h.connected k;
          }))
