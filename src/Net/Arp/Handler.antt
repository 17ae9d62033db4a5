-- ===== src/Net/Arp/Handler.antt =====
-- The operations of src/net/arp.c that call out: learning, resolving, and the handler of packets.
use mich_core.Base.{
  ℕ, Bool, true, false, not, ◌&&◌, ◌||◌, Option, none, some, List, ltb, leb, ◌==◌, if◌then◌else◌,
  add32, sub32, add64, set, length,
}
use mich_core.Net.Arp.{
  Hardware, FrameView, arp_cache_pending, ArpContext, arp_packet_size, arp_reply_window,
  arp_reply_max, no_hardware, broadcast, read_be16, read_be32, less_signed, address_equal,
  protocol_valid, is_malformed, is_known, build_packet, hardware_at, entry_at, entry_for,
  learned_entry,
}

module _ {W : Type 0} where
  abbrev pub count_malformed : ArpContext W → ArpContext W × Bool
  count_malformed arp =
      (record arp { stats = record arp.stats { malformed = add64 arp.stats.malformed 1 } }, true)

-- `transmit` has the destination and the payload, and tells whether it failed. Its type is 0x0806.
module _ {W : Type 0} (transmit : W → Hardware → List ℕ → W × Bool)
    (update : W → ℕ → Hardware → W) where
  unfoldable pub learn : ArpContext W → ℕ → Hardware → ℕ → ArpContext W
  learn arp address hardware now =
      let (arp', i) = entry_for arp address now in
      record arp' {
        cache =
            set arp'.cache i (learned_entry (entry_at arp' i) address hardware now arp'.cache_ttl);
        stats = record arp'.stats { cache_updates = add64 arp'.stats.cache_updates 1 };
        world = if arp'.updates then update arp'.world address hardware else arp'.world;
      }

  -- The end of `arp_resolve`, for entry `i`: 0 for known, 1 for asked, `none` for -1.
  unfoldable pub request : ArpContext W → ℕ → ℕ → ℕ → ArpContext W × Option ℕ
  request arp i address now =
      let e = entry_at arp i in
      let packet = build_packet 1 arp.port arp.local_address no_hardware address in
      let (world, failed) = transmit arp.world broadcast packet in
      if less_signed (sub32 now e.last_request) arp.request_interval
      then (
        record arp { stats = record arp.stats { rate_limited = add64 arp.stats.rate_limited 1 } },
        some 1,
      )
      else if failed
      then (record arp { world = world }, none)
      else (
        record arp {
          world = world;
          cache = set arp.cache i (record e {
            last_request = now;
            updated = now;
            expires = add32 now arp.cache_ttl;
            state = arp_cache_pending;
          });
          stats = record arp.stats { requests_sent = add64 arp.stats.requests_sent 1 };
        },
        some 1,
      )

  unfoldable pub arp_resolve : ArpContext W → ℕ → ℕ → ArpContext W × Option ℕ
  arp_resolve arp address now =
      let later = record arp { now = now } in
      let (arp', i) = entry_for later address now in
      if not (protocol_valid address) || address == arp.local_address
      then (arp, none)
      else if is_known (entry_at arp' i) now
      then (arp', some 0)
      else request arp' i address now

  -- A reply to a request, where the window has room for one. True is a failure.
  unfoldable pub reply : ArpContext W → Hardware → ℕ → ArpContext W × Bool
  reply arp hardware address =
      let expired = not (less_signed (sub32 arp.now arp.reply_window_start) arp_reply_window) in
      let start = if expired then arp.now else arp.reply_window_start in
      let sent = if expired then 0 else arp.replies_in_window in
      let window = record arp { reply_window_start = start; replies_in_window = sent } in
      let packet = build_packet 2 arp.port arp.local_address hardware address in
      let (world, failed) = transmit arp.world hardware packet in
      let counted = record window { replies_in_window = add32 sent 1; world = world } in
      if leb arp_reply_max sent
      then (
        record window {
          stats = record arp.stats { rate_limited = add64 arp.stats.rate_limited 1 };
        },
        false,
      )
      else if failed
      then (counted, true)
      else (
        record counted {
          stats = record arp.stats { replies_sent = add64 arp.stats.replies_sent 1 };
        },
        false,
      )

  abbrev pub handle_request : ArpContext W → List ℕ → ArpContext W × Bool
  handle_request arp p =
      let counted = record arp {
        stats = record arp.stats { requests_received = add64 arp.stats.requests_received 1 };
      } in
      if not (read_be32 p 24 == arp.local_address)
      then (counted, false)
      else reply (learn counted (read_be32 p 14) (hardware_at p 8) arp.now) (hardware_at p 8)
          (read_be32 p 14)

  abbrev pub handle_reply : ArpContext W → List ℕ → ArpContext W × Bool
  handle_reply arp p =
      let counted = record arp {
        stats = record arp.stats { replies_received = add64 arp.stats.replies_received 1 };
      } in
      if not (read_be32 p 24 == arp.local_address)
        || not (address_equal (hardware_at p 18) arp.port)
      then count_malformed counted
      else (learn counted (read_be32 p 14) (hardware_at p 8) arp.now, false)

  unfoldable pub arp_ethernet_handler : ArpContext W → FrameView → ArpContext W × Bool
  arp_ethernet_handler arp frame =
      let p = frame.payload in
      if not frame.on_port || (not (frame.ether_type == 2054) || ltb (length p) arp_packet_size)
      then count_malformed arp
      else if is_malformed p frame.source
      then count_malformed arp
      else if read_be32 p 14 == arp.local_address && not (address_equal (hardware_at p 8) arp.port)
      then (
        record arp { stats = record arp.stats { conflicts = add64 arp.stats.conflicts 1 } },
        true,
      )
      else if read_be16 p 6 == 1
      then handle_request arp p
      else handle_reply arp p
