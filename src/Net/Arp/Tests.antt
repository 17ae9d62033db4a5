-- ===== src/Net/Arp/Tests.antt =====
-- Runs of src/net/arp.c between 10.0.0.1 and 10.0.0.2. The world is the list of what was sent.
use mich_core.Base.{
  ℕ, ◌≡◌, refl, arith, Bool, false, some, List, [], ◌∷◌, get_or, replicate, get_or-replicate,
}
use mich_core.Net.Arp.{
  Hardware, ArpContext, no_entry, arp_cache_max, arp_lookup, is_for, is_reachable, no_stats,
}
use mich_core.Net.Arp.Handler.{learn, arp_ethernet_handler}
use mich_core.Net.Arp.Fields.{frame_of}
use mich_core.Net.Arp.Cache.{IsUnique, arp_lookup-learn}
use mich_core.Net.Arp.Sound.{IsArp}
use mich_core.Net.Arp.Steps.{handles, ArpStep-IsArp}

abbrev Sent : Type 0
Sent = List (Hardware × List ℕ)

abbrev send : Sent → Hardware → List ℕ → Sent × Bool
send sent to packet = ((to, packet) ∷ sent, false)

abbrev tell : Sent → ℕ → Hardware → Sent
tell sent address hardware = sent

abbrev first_hardware : Hardware
first_hardware = record { b0 = 2; b1 = 0; b2 = 0; b3 = 0; b4 = 0; b5 = 1 }

abbrev second_hardware : Hardware
second_hardware = record { b0 = 2; b1 = 0; b2 = 0; b3 = 0; b4 = 0; b5 = 2 }

abbrev first : ℕ
first = 167772161

abbrev second : ℕ
second = 167772162

-- The owner of the first address, after `arp_init`.
abbrev idle : ArpContext Sent
idle = record {
  port = first_hardware;
  local_address = first;
  cache_ttl = 1000;
  request_interval = 10;
  now = 5;
  reply_window_start = 0;
  replies_in_window = 0;
  cache = replicate arp_cache_max no_entry;
  stats = no_stats;
  updates = false;
  world = [];
}

idle-IsUnique : IsUnique idle.cache
idle-IsUnique i j a h k =
    let no : is_for a (get_or idle.cache i no_entry) ≡ false =
      rw (get_or-replicate arp_cache_max i no_entry) refl in
    cc

idle-IsArp : IsArp idle
idle-IsArp = (
  record {
    size = refl;
    unique = idle-IsUnique;
    valid = λ i h.
        let no : is_reachable (get_or idle.cache i no_entry).state ≡ false =
          rw (get_or-replicate arp_cache_max i no_entry) refl in
        cc;
  },
  omega arith,
)

arp_lookup-learn_example :
    (arp_lookup (learn send tell idle second second_hardware 5) second 900).1 ≡ some second_hardware
arp_lookup-learn_example =
    arp_lookup-learn send tell idle second 5 900 second_hardware (omega arith) idle-IsUnique refl
      (omega arith) (omega arith) (omega arith) (omega arith)

ArpStep-IsArp_example :
    IsArp
      (arp_ethernet_handler send tell idle
        (frame_of 1 second_hardware second first_hardware first)).0
ArpStep-IsArp_example =
    ArpStep-IsArp send tell (handles (frame_of 1 second_hardware second first_hardware first))
      idle-IsArp
