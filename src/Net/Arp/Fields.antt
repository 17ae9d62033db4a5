-- ===== src/Net/Arp/Fields.antt =====
-- The packets of src/net/arp.c: what the handler reads of a packet is what `build_packet` was given.
use mich_core.Base.{
  ℕ, ◌^◌, ◌<◌, ◌≡◌, refl, ap, ◌∙◌, arith, Bool, true, false, not, ◌||◌, List, ◌==◌, get_or, length,
}
use mich_core.Net.Arp.{
  Hardware, FrameView, read_be16, read_be32, hardware_at, build_packet, address_equal,
  hardware_valid, protocol_valid, is_malformed,
}

-- The packet has the fields that it was built from. The operation is of 16 bits, the addresses of 32.
pub build_packet-read :
    (operation sender target : ℕ) (s t : Hardware)
    → operation < 2 ^ 16
    → sender < 2 ^ 32
    → target < 2 ^ 32
    → let p = build_packet operation s sender t target in
      (length p ≡ 28)
      × (read_be16 p 6 ≡ operation)
      × (hardware_at p 8 ≡ s)
      × (read_be32 p 14 ≡ sender)
      × (hardware_at p 18 ≡ t)
      × (read_be32 p 24 ≡ target)
unfolding build_packet
build_packet-read operation sender target s t h k l =
    (refl, omega arith, refl, omega arith, refl, omega arith)

pub address_equal_self : (a : Hardware) → address_equal a a ≡ true
address_equal_self a = ground arith

address_equal_same : (a b : Hardware) → address_equal a b ≡ true → a ≡ b
address_equal_same a b h =
    let q0 : a.b0 ≡ b.b0 = ground arith in
    let q1 : a.b1 ≡ b.b1 = ground arith in
    let q2 : a.b2 ≡ b.b2 = ground arith in
    let q3 : a.b3 ≡ b.b3 = ground arith in
    let q4 : a.b4 ≡ b.b4 = ground arith in
    let q5 : a.b5 ≡ b.b5 = ground arith in
    λ i. record { b0 = q0 i; b1 = q1 i; b2 = q2 i; b3 = q3 i; b4 = q4 i; b5 = q5 i }

all_false :
    {a b c d e f g h k : Bool}
    → a ≡ true
    → b ≡ true
    → c ≡ true
    → d ≡ true
    → e ≡ true
    → f ≡ true
    → g ≡ true
    → h ≡ true
    → k ≡ true
    → (not a || (not b || (not c || (not d || (not e || (not f || (not g || (not h || not k))))))))
      ≡ false
all_false a b c d e f g h k = rw (a, b, c, d, e, f, g, h, k) refl

-- The tests of the handler pass for a packet with these fields.
pub well_formed :
    (p : List ℕ) (operation sender target : ℕ) (s : Hardware)
    → read_be16 p 0 ≡ 1
    → read_be16 p 2 ≡ 2048
    → get_or p 4 0 ≡ 6
    → get_or p 5 0 ≡ 4
    → read_be16 p 6 ≡ operation
    → hardware_at p 8 ≡ s
    → read_be32 p 14 ≡ sender
    → read_be32 p 24 ≡ target
    → (operation == 1 || operation == 2) ≡ true
    → hardware_valid s ≡ true
    → protocol_valid sender ≡ true
    → protocol_valid target ≡ true
    → is_malformed p s ≡ false
well_formed p operation sender target s a b c d e f g h k l m n =
    let valid : hardware_valid (hardware_at p 8) ≡ true = ap hardware_valid f ∙ l in
    let equal : address_equal (hardware_at p 8) s ≡ true =
      ap (λ x. address_equal x s) f ∙ address_equal_self s in
    let from : protocol_valid (read_be32 p 14) ≡ true = ap protocol_valid g ∙ m in
    let to : protocol_valid (read_be32 p 24) ≡ true = ap protocol_valid h ∙ n in
    let which : (read_be16 p 6 == 1 || read_be16 p 6 == 2) ≡ true =
      ap (λ x. x == 1 || x == 2) e ∙ k in
    let test1 : (read_be16 p 0 == 1) ≡ true = ap (λ x. x == 1) a in
    let test2 : (read_be16 p 2 == 2048) ≡ true = ap (λ x. x == 2048) b in
    let test3 : (get_or p 4 0 == 6) ≡ true = ap (λ x. x == 6) c in
    let test4 : (get_or p 5 0 == 4) ≡ true = ap (λ x. x == 4) d in
    all_false test1 test2 test3 test4 which valid equal from to

-- The packet is one of ARP for Ethernet and IPv4 with these fields.
abbrev pub IsPacket : List ℕ → ℕ → Hardware → ℕ → Hardware → ℕ → Type 0
IsPacket p operation s sender t target =
    (length p ≡ 28)
    × (read_be16 p 0 ≡ 1)
    × (read_be16 p 2 ≡ 2048)
    × (get_or p 4 0 ≡ 6)
    × (get_or p 5 0 ≡ 4)
    × (read_be16 p 6 ≡ operation)
    × (hardware_at p 8 ≡ s)
    × (read_be32 p 14 ≡ sender)
    × (hardware_at p 18 ≡ t)
    × (read_be32 p 24 ≡ target)

pub build_packet-IsPacket :
    (operation sender target : ℕ) (s t : Hardware)
    → operation < 2 ^ 16
    → sender < 2 ^ 32
    → target < 2 ^ 32
    → IsPacket (build_packet operation s sender t target) operation s sender t target
unfolding build_packet
build_packet-IsPacket operation sender target s t h k l =
    let (size, a, b, c, d, e) = build_packet-read operation sender target s t h k l in
    (size, refl, refl, refl, refl, a, b, c, d, e)

-- The frame of a packet that an owner of address `sender` sends.
abbrev pub frame_of : ℕ → Hardware → ℕ → Hardware → ℕ → FrameView
frame_of operation s sender t target = record {
  on_port = true;
  source = s;
  ether_type = 2054;
  payload = build_packet operation s sender t target;
}
