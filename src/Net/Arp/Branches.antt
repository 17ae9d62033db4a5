-- ===== src/Net/Arp/Branches.antt =====
-- The branches of the handler of src/net/arp.c for a packet to the own address.
use mich_core.Base.{
  ℕ, ◌^◌, ◌<◌, ◌≡◌, ◌≢◌, refl, ap, ◌∙◌, arith, Bool, true, false, List, ltb, ◌==◌, if◌then◌else◌,
  length, add64,
}
use mich_core.Net.Arp.{
  Hardware, ArpContext, read_be16, read_be32, hardware_at, build_packet, address_equal,
  hardware_valid, protocol_valid, is_malformed,
}
use mich_core.Net.Arp.Handler.{arp_ethernet_handler, handle_request, handle_reply, learn, reply}
use mich_core.Net.Arp.Fields.{build_packet-read, address_equal_self, well_formed, frame_of}

module _ {W : Type 0} (transmit : W → Hardware → List ℕ → W × Bool)
    (update : W → ℕ → Hardware → W) where
  -- Which branch the handler takes, by the fields of the packet.
  handler_cases :
      (arp : ArpContext W) (p : List ℕ) (s : Hardware)
      → length p ≡ 28
      → is_malformed p s ≡ false
      → (read_be32 p 14 == arp.local_address) ≡ false
      → arp_ethernet_handler transmit update arp
          (record { on_port = true; source = s; ether_type = 2054; payload = p })
        ≡ (if read_be16 p 6 == 1
            then handle_request transmit update arp p
            else handle_reply transmit update arp p)
  unfolding arp_ethernet_handler
  handler_cases arp p s size well n =
      let long : ltb (length p) 28 ≡ false = ground arith in rw (long, well, n) refl

  handle_request_own :
      (arp : ArpContext W) (p : List ℕ) (s : Hardware) (sender : ℕ)
      → hardware_at p 8 ≡ s
      → read_be32 p 14 ≡ sender
      → read_be32 p 24 ≡ arp.local_address
      → let counted = record arp {
        stats = record arp.stats { requests_received = add64 arp.stats.requests_received 1 };
      } in
        handle_request transmit update arp p
        ≡ reply transmit update (learn transmit update counted sender s arp.now) s sender
  handle_request_own arp p s sender e d q =
      let counted = record arp {
        stats = record arp.stats { requests_received = add64 arp.stats.requests_received 1 };
      } in
      let own : (read_be32 p 24 == arp.local_address) ≡ true = ground arith in
      rw own
        (λ i. reply transmit update (learn transmit update counted (d i) (e i) arp.now) (e i) (d i))

  handle_reply_own :
      (arp : ArpContext W) (p : List ℕ) (s : Hardware) (sender : ℕ)
      → hardware_at p 8 ≡ s
      → read_be32 p 14 ≡ sender
      → hardware_at p 18 ≡ arp.port
      → read_be32 p 24 ≡ arp.local_address
      → let counted = record arp {
        stats = record arp.stats { replies_received = add64 arp.stats.replies_received 1 };
      } in
        handle_reply transmit update arp p ≡ (learn transmit update counted sender s arp.now, false)
  handle_reply_own arp p s sender e d t q =
      let counted = record arp {
        stats = record arp.stats { replies_received = add64 arp.stats.replies_received 1 };
      } in
      let own : (read_be32 p 24 == arp.local_address) ≡ true = ground arith in
      let to : address_equal (hardware_at p 18) arp.port ≡ true =
        ap (λ x. address_equal x arp.port) t ∙ address_equal_self arp.port in
      rw (own, to) (λ i. (learn transmit update counted (d i) (e i) arp.now, false))

  pub handler_request_own :
      (arp : ArpContext W) (s t : Hardware) (sender : ℕ)
      → sender < 2 ^ 32
      → arp.local_address < 2 ^ 32
      → hardware_valid s ≡ true
      → protocol_valid sender ≡ true
      → protocol_valid arp.local_address ≡ true
      → sender ≢ arp.local_address
      → let counted = record arp {
        stats = record arp.stats { requests_received = add64 arp.stats.requests_received 1 };
      } in
        arp_ethernet_handler transmit update arp (frame_of 1 s sender t arp.local_address)
        ≡ reply transmit update (learn transmit update counted sender s arp.now) s sender
  unfolding build_packet
  handler_request_own arp s t sender w w' a b c n =
      let p = build_packet 1 s sender t arp.local_address in
      let (size, op, from, sender_of, to, target_of) =
        build_packet-read 1 sender arp.local_address s t (omega arith) w w' in
      let well =
        well_formed p 1 sender arp.local_address s refl refl refl refl op from sender_of target_of
          refl a b c in
      let other : (read_be32 p 14 == arp.local_address) ≡ false =
        ap (λ x. x == arp.local_address) sender_of ∙ ground arith in
      handler_cases arp p s size well other
      ∙ ap
          (λ x.
            if x == 1
            then handle_request transmit update arp p
            else handle_reply transmit update arp p)
          op
      ∙ handle_request_own arp p s sender from sender_of target_of

  pub handler_reply_own :
      (arp : ArpContext W) (s : Hardware) (sender : ℕ)
      → sender < 2 ^ 32
      → arp.local_address < 2 ^ 32
      → hardware_valid s ≡ true
      → protocol_valid sender ≡ true
      → protocol_valid arp.local_address ≡ true
      → sender ≢ arp.local_address
      → let counted = record arp {
        stats = record arp.stats { replies_received = add64 arp.stats.replies_received 1 };
      } in
        arp_ethernet_handler transmit update arp (frame_of 2 s sender arp.port arp.local_address)
        ≡ (learn transmit update counted sender s arp.now, false)
  unfolding build_packet
  handler_reply_own arp s sender w w' a b c n =
      let p = build_packet 2 s sender arp.port arp.local_address in
      let (size, op, from, sender_of, to, target_of) =
        build_packet-read 2 sender arp.local_address s arp.port (omega arith) w w' in
      let well =
        well_formed p 2 sender arp.local_address s refl refl refl refl op from sender_of target_of
          refl a b c in
      let other : (read_be32 p 14 == arp.local_address) ≡ false =
        ap (λ x. x == arp.local_address) sender_of ∙ ground arith in
      handler_cases arp p s size well other
      ∙ ap
          (λ x.
            if x == 1
            then handle_request transmit update arp p
            else handle_reply transmit update arp p)
          op
      ∙ handle_reply_own arp p s sender from sender_of to target_of
