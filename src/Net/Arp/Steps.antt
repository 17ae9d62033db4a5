-- ===== src/Net/Arp/Steps.antt =====
-- Every operation of src/net/arp.c keeps the cache and the window of the replies well formed.
use mich_core.Base.{
  some_inj, ℕ, ◌<◌, ◌≤◌, ◌≡◌, inl, inr, refl, sym, subst, ◌∙◌, arith, Bool, true, false, not, ◌&&◌,
  ◌||◌, none, some, List, ltb, leb, ◌==◌, if◌then◌else◌, get_or, length, Bool-cases, add64, add32,
  sub32,
}
use mich_core.Net.Arp.{
  Hardware, FrameView, arp_cache_pending, ArpContext, entry_at, entry_for, learned_entry,
  arp_lookup, protocol_valid, hardware_valid, is_known, is_malformed, emptied, address_equal,
  arp_set_local_address, arp_set_update_callback, expire, arp_tick, hardware_at, read_be32,
  read_be16, arp_packet_size, arp_reply_max, arp_reply_window, less_signed, no_hardware, broadcast,
  build_packet,
}
use mich_core.Net.Arp.Handler.{learn, request, arp_resolve, reply, arp_ethernet_handler}
use mich_core.Net.Arp.Cache.{IsAlone, entry_for-IsAlone}
use mich_core.Net.Arp.Sound.{
  IsArp, set-IsCache, fewer-IsCache, entry_for_replies, entry_for-IsCache, arp_lookup-IsArp,
  length-expire, expire_cases, length-emptied, emptied_cases,
}

or_right : (a x : Bool) → x ≡ true → (a || x) ≡ true
or_right true x h = refl
or_right false x h = h

-- A packet that passes the tests has a valid sender.
source_valid :
    (p : List ℕ) (source : Hardware)
    → is_malformed p source ≡ false
    → hardware_valid (hardware_at p 8) ≡ true
source_valid p source h = elim (Bool-cases (hardware_valid (hardware_at p 8))) [
  | inl t ↦ t
  | inr f ↦
      let bad : is_malformed p source ≡ true = or_right (not (read_be16 p 0 == 1)) _ (
        or_right (not (read_be16 p 2 == 2048)) _ (
          or_right (not (get_or p 4 0 == 6)) _ (
            or_right (not (get_or p 5 0 == 4)) _
              (or_right (not (read_be16 p 6 == 1 || read_be16 p 6 == 2)) _ (rw f refl))))) in
      cc
]

module _ {W : Type 0} (transmit : W → Hardware → List ℕ → W × Bool)
    (update : W → ℕ → Hardware → W) where
  learn-IsArp :
      (arp : ArpContext W) (a now : ℕ) (x : Hardware)
      → hardware_valid x ≡ true
      → IsArp arp
      → IsArp (learn transmit update arp a x now)
  unfolding learn
  learn-IsArp arp a now x good (h, few) =
      let size = h.size in
      let (size', k, u, alone, q) = entry_for-IsAlone arp a now (omega arith) h.unique in
      let (arp', i) = entry_for arp a now in
      (
        set-IsCache arp'.cache a i (learned_entry (entry_at arp' i) a x now arp'.cache_ttl)
            (entry_for-IsCache arp a now h) k alone refl (λ y. good),
        rw (entry_for_replies arp a now) few,
      )

  request-IsArp :
      (arp : ArpContext W) (i a now : ℕ)
      → i < length arp.cache
      → IsAlone arp.cache a i
      → (entry_at arp i).protocol_address ≡ a
      → IsArp arp
      → IsArp (request transmit update arp i a now).0
  unfolding request
  request-IsArp arp i a now k alone q (h, few) =
      let e = entry_at arp i in
      let sent =
        transmit arp.world broadcast (build_packet 1 arp.port arp.local_address no_hardware a) in
      elim (Bool-cases (less_signed (sub32 now e.last_request) arp.request_interval)) [
        | inl t ↦ rw (t, request) (h, few)
        | inr t ↦ elim (Bool-cases sent.1) [
          | inl f ↦ rw (t, f, request) (h, few)
          | inr f ↦
              rw (t, f, request)
                (
                  set-IsCache arp.cache a i
                      (record e {
                        last_request = now;
                        updated = now;
                        expires = add32 now arp.cache_ttl;
                        state = arp_cache_pending;
                      })
                      h k alone q (λ y. cc),
                  few,
                )
        ]
      ]

  arp_resolve-IsArp :
      (arp : ArpContext W) (a now : ℕ) → IsArp arp → IsArp (arp_resolve transmit update arp a now).0
  unfolding arp_resolve
  arp_resolve-IsArp arp a now (h, few) =
      let size = h.size in
      let later = record arp { now = now } in
      let (size', k, u, alone, q) = entry_for-IsAlone later a now (omega arith) h.unique in
      let (arp', i) = entry_for later a now in
      let sound : IsArp arp' =
        (entry_for-IsCache later a now h, rw (entry_for_replies later a now) few) in
      elim (Bool-cases (not (protocol_valid a) || a == arp.local_address)) [
        | inl t ↦ rw (t, arp_resolve) (h, few)
        | inr t ↦ elim (Bool-cases (is_known (entry_at arp' i) now)) [
          | inl f ↦ rw (t, f, arp_resolve) sound
          | inr f ↦ rw (t, f, arp_resolve) (request-IsArp arp' i a now k alone q sound)
        ]
      ]

  reply-IsArp :
      (arp : ArpContext W) (x : Hardware) (a : ℕ)
      → IsArp arp
      → IsArp (reply transmit update arp x a).0
  unfolding reply
  reply-IsArp arp x a (h, few) =
      let expired = not (less_signed (sub32 arp.now arp.reply_window_start) arp_reply_window) in
      let sent = if expired then 0 else arp.replies_in_window in
      let world = transmit arp.world x (build_packet 2 arp.port arp.local_address x a) in
      let low : sent ≤ arp_reply_max = ground arith in
      elim (Bool-cases (leb arp_reply_max sent)) [
        | inl t ↦ rw (t, reply) (h, low)
        | inr t ↦
            let room : add32 sent 1 ≤ arp_reply_max = ground arith in
            elim (Bool-cases world.1) [
              | inl f ↦ rw (t, f, reply) (h, room)
              | inr f ↦ rw (t, f, reply) (h, room)
            ]
      ]

  handler-IsArp :
      (arp : ArpContext W) (frame : FrameView)
      → IsArp arp
      → IsArp (arp_ethernet_handler transmit update arp frame).0
  unfolding arp_ethernet_handler
  handler-IsArp arp frame (h, few) =
      let p = frame.payload in
      let requested = record arp {
        stats = record arp.stats { requests_received = add64 arp.stats.requests_received 1 };
      } in
      let replied = record arp {
        stats = record arp.stats { replies_received = add64 arp.stats.replies_received 1 };
      } in
      elim (Bool-cases
        (not frame.on_port || (not (frame.ether_type == 2054) || ltb (length p) arp_packet_size))) [
          | inl t ↦ rw t (h, few)
          | inr t1 ↦ elim (Bool-cases (is_malformed p frame.source)) [
            | inl t ↦ rw (t1, t) (h, few)
            | inr t2 ↦
                let good = source_valid p frame.source t2 in
                elim (Bool-cases (
                  read_be32 p 14 == arp.local_address
                  && not (address_equal (hardware_at p 8) arp.port))) [
                    | inl t ↦ rw (t1, t2, t) (h, few)
                    | inr t3 ↦ elim (Bool-cases (read_be16 p 6 == 1)) [
                      | inl t4 ↦ elim (Bool-cases (read_be32 p 24 == arp.local_address)) [
                        | inr t ↦ rw (t1, t2, t3, t4, t) (h, few)
                        | inl t ↦
                            rw (t1, t2, t3, t4, t)
                              (reply-IsArp
                                (learn transmit update requested (read_be32 p 14) (hardware_at p 8)
                                  arp.now)
                                (hardware_at p 8) (read_be32 p 14)
                                (learn-IsArp requested (read_be32 p 14) arp.now (hardware_at p 8)
                                  good (h, few)))
                      ]
                      | inr t4 ↦
                          elim (Bool-cases (
                            not (read_be32 p 24 == arp.local_address)
                            || not (address_equal (hardware_at p 18) arp.port))) [
                              | inl t ↦ rw (t1, t2, t3, t4, t) (h, few)
                              | inr t ↦
                                  rw (t1, t2, t3, t4, t)
                                    (learn-IsArp replied (read_be32 p 14) arp.now (hardware_at p 8)
                                      good (h, few))
                            ]
                    ]
                  ]
          ]
        ]

  -- One call of the module.
  pub data ArpStep (arp : ArpContext W) : ArpContext W → Type 0 where
    handles : (frame : FrameView) → ArpStep arp (arp_ethernet_handler transmit update arp frame).0
    resolves : (a now : ℕ) → ArpStep arp (arp_resolve transmit update arp a now).0
    looks_up : (a now : ℕ) → ArpStep arp (arp_lookup arp a now).0
    ticks : (now : ℕ) → ArpStep arp (arp_tick arp now)
    registers : ArpStep arp (arp_set_update_callback arp)
    moves :
        {arp' : ArpContext W} (a : ℕ) → arp_set_local_address arp a ≡ some arp' → ArpStep arp arp'

  -- Every call keeps the context well formed: no address has two entries, no known neighbour has the
  -- hardware address of a group or zero, and a window has no more replies than its limit.
  pub ArpStep-IsArp : {arp arp' : ArpContext W} → ArpStep arp arp' → IsArp arp → IsArp arp'
  unfolding arp_tick arp_set_local_address
  ArpStep-IsArp {arp} (handles frame) h = handler-IsArp arp frame h
  ArpStep-IsArp {arp} (resolves a now) h = arp_resolve-IsArp arp a now h
  ArpStep-IsArp {arp} (looks_up a now) h = arp_lookup-IsArp arp a now h
  ArpStep-IsArp {arp} (ticks now) (h, few) = (
    fewer-IsCache arp.cache (expire arp.cache now).0 h (length-expire arp.cache now)
        (expire_cases arp.cache now),
    few,
  )
  ArpStep-IsArp registers h = h
  ArpStep-IsArp {arp} (moves a e) (h, few) = elim (Bool-cases (protocol_valid a)) [
    | inr f ↦ let no : arp_set_local_address arp a ≡ none = rw f refl in cc
    | inl t ↦
        let moved = record arp { local_address = a; cache = emptied arp.cache } in
        let got : arp_set_local_address arp a ≡ some moved = rw t refl in
        subst IsArp (some_inj (sym got ∙ e)) (
          fewer-IsCache arp.cache (emptied arp.cache) h (length-emptied arp.cache)
              (λ j. inr (emptied_cases arp.cache j)),
          few,
        )
  ]
