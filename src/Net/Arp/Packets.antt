-- ===== src/Net/Arp/Packets.antt =====
-- What the handler of src/net/arp.c does with a request and with a reply to the own address: what is
-- learned of the sender, and what is sent.
use mich_core.Base.{
  ℕ, ◌+◌, ◌<◌, ◌≤◌, ◌≡◌, ◌⊎◌, Bool, false, not, Option, none, some, List, if◌then◌else◌, get_or,
  sub32, before,
}
use mich_core.Net.Arp.{
  Hardware, ArpCacheEntry, ArpContext, no_entry, find_entry, is_reachable, less_signed,
  protocol_valid,
}
use mich_core.Net.Arp.Fields.{IsPacket}

-- What a lookup at a time answers, from the cache alone.
looked_up : List ArpCacheEntry → ℕ → ℕ → Option Hardware
looked_up cache address now =
    if not (protocol_valid address) then none else elim (find_entry cache address) [
      | none ↦ none
      | some i ↦
          let e = get_or cache i no_entry in
          if not (is_reachable e.state)
          then none
          else if not (before now e.expires)
          then none
          else some e.hardware_address
    ]

module _ {W : Type 0} where
  -- The number of replies in the window that is open now: none once 100 ticks have passed.
  abbrev pub replies_now : ArpContext W → ℕ
  replies_now arp =
      if less_signed (sub32 arp.now arp.reply_window_start) 100 then arp.replies_in_window else 0

  -- The world after a registered callback was told of the sender.
  abbrev pub told : (W → ℕ → Hardware → W) → ArpContext W → ℕ → Hardware → W
  told update arp sender s = if arp.updates then update arp.world sender s else arp.world

  -- The result of the handler is an answer to `s` with one packet, a reply from the own addresses, or the
  -- 32 replies of the window were sent before and the handler sends nothing.
  abbrev pub IsAnswer :
      (W → Hardware → List ℕ → W × Bool)
      → (W → ℕ → Hardware → W)
      → ArpContext W
      → Hardware
      → ℕ
      → ArpContext W × Bool
      → Type 0
  IsAnswer transmit update arp s sender (arp', failed) =
      ((p : List ℕ) × (replies_now arp < 32)
        × IsPacket p 2 arp.port arp.local_address s sender
        × ((arp'.world, failed) ≡ transmit (told update arp sender s) s p)
        × (arp'.replies_in_window ≡ replies_now arp + 1))
      ⊎ ((32 ≤ replies_now arp) × (arp'.world ≡ told update arp sender s) × (failed ≡ false))
