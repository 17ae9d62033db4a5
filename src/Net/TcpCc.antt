-- ===== src/Net/TcpCc.antt =====
-- src/net/tcp_cc.c: the two congestion policies of TCP, with the fields of `struct tcp_connection`
-- (src/net/tcp.h) that they read and write. The hook tables `reno_ops` and `bbr_ops` are the
-- families of functions `reno_*` and `bbr_*`; a hook with an empty body is not repeated here.
-- `remote_mss` is a u16 whose products are taken in 32 bits.
pub mod Division
pub mod Reno
pub mod Bbr
mod Tests
use mich_core.Base.{
  ℕ, zero, suc, ◌+◌, ◌-◌, ◌*◌, ◌/◌, ◌%◌, ◌^◌, Bool, true, false, not, ◌&&◌, ◌||◌, List, [], ◌∷◌,
  ltb, leb, ◌==◌, if◌then◌else◌, add32, sub32, mul32, get_or,
}

pub data BbrPhase : Type 0 where
  tcp_bbr_startup tcp_bbr_drain tcp_bbr_probe_bw tcp_bbr_probe_rtt : BbrPhase

pub record TcpConnection : Type 0 where
  pub remote_mss : ℕ
  pub congestion_window : ℕ
  pub slow_start_threshold : ℕ
  pub bbr_phase : BbrPhase
  pub bbr_min_rtt : ℕ
  pub bbr_min_rtt_deadline : ℕ
  pub bbr_bw : ℕ
  pub bbr_bw_window_end : ℕ
  pub bbr_delivered : ℕ
  pub bbr_interval_start : ℕ
  pub bbr_probe_count : ℕ
  pub bbr_probe_rtt_start : ℕ
  pub bbr_startup_rounds : ℕ
  pub bbr_round : ℕ

abbrev pub tcp_bbr_window : ℕ
tcp_bbr_window = 10000

abbrev pub tcp_bbr_probe_rtt_duration : ℕ
tcp_bbr_probe_rtt_duration = 200

-- The loop of `div64_by_32` where the high word is not below the divisor. The first argument is
-- one more than `shift`; the bit that `|=` sets is not yet set, so it is added.
pub divide_high : ℕ → ℕ → ℕ → ℕ → ℕ
divide_high zero d rem res = res
divide_high (suc shift) d rem res =
    divide_high shift d (if leb d rem then sub32 rem (mul32 d (2 ^ shift)) else rem)
      (if leb d rem then res + 2 ^ shift else res)

-- The loop over the bits of the low word, from the highest.
pub divide_low : ℕ → ℕ → ℕ → ℕ → ℕ → ℕ
divide_low zero n d rem res = res
divide_low (suc bits) n d rem res =
    let next = rem * 2 % 2 ^ 32 + n / 2 ^ bits % 2 in
    divide_low bits n d (if leb d next then next - d else next)
      (res * 2 % 2 ^ 32 + (if leb d next then 1 else 0))

pub div64_by_32 : ℕ → ℕ → ℕ
div64_by_32 n d =
    let rem = n / 2 ^ 32 % 2 ^ 32 in
    if leb d rem then divide_high 32 d rem 0 else divide_low 32 n d rem 0

pub bbr_bdp : TcpConnection → ℕ
bbr_bdp c =
    let bdp = c.bbr_bw * c.bbr_min_rtt / 65536 % 2 ^ 32 in
    let raised = if ltb bdp (c.remote_mss * 4) then c.remote_mss * 4 else bdp in
    if c.bbr_bw == 0 || c.bbr_min_rtt == 0 then 0 else if ltb 65535 raised then 65535 else raised

-- How far `reno_on_ack` wants to open the window.
pub reno_increase : TcpConnection → ℕ → ℕ
reno_increase c acked_bytes =
    let slow = if acked_bytes == 0 then c.remote_mss else acked_bytes in
    let increase =
      if leb c.slow_start_threshold c.congestion_window
      then mul32 c.remote_mss c.remote_mss / c.congestion_window
      else slow in
    if increase == 0 then 1 else increase

pub reno_on_ack : TcpConnection → ℕ → TcpConnection
reno_on_ack c acked_bytes =
    let increase = reno_increase c acked_bytes in
    record c {
      congestion_window =
          if ltb (sub32 65535 c.congestion_window) increase
          then 65535
          else add32 c.congestion_window increase;
    }

pub reno_on_fast_retransmit : TcpConnection → TcpConnection
reno_on_fast_retransmit c =
    let half = c.congestion_window / 2 in
    let threshold = if ltb half (c.remote_mss * 2) then c.remote_mss * 2 else half in
    record c {
      slow_start_threshold = threshold;
      congestion_window = add32 threshold (c.remote_mss * 3);
    }

pub reno_on_rto : TcpConnection → TcpConnection
reno_on_rto c = record c { congestion_window = c.remote_mss }

abbrev pub bbr_probe_gains : List ℕ
bbr_probe_gains = 1024 ∷ 1024 ∷ 1024 ∷ 1280 ∷ 1024 ∷ 1024 ∷ 1280 ∷ 1024 ∷ []

pub bbr_init : TcpConnection → TcpConnection
bbr_init c = record c {
  bbr_phase = tcp_bbr_startup;
  bbr_min_rtt = 0;
  bbr_min_rtt_deadline = 0;
  bbr_bw = 0;
  bbr_bw_window_end = 0;
  bbr_delivered = 0;
  bbr_interval_start = 0;
  bbr_probe_count = 0;
  bbr_probe_rtt_start = 0;
  bbr_startup_rounds = 0;
  bbr_round = 0;
}

pub bbr_on_rtt : TcpConnection → ℕ → ℕ → TcpConnection
bbr_on_rtt c sample now =
    if not (sample == 0)
      && (c.bbr_min_rtt == 0 || (leb c.bbr_min_rtt_deadline now || ltb sample c.bbr_min_rtt))
    then record c {
      bbr_min_rtt = sample;
      bbr_min_rtt_deadline = add32 now tcp_bbr_window;
      bbr_round = 1;
    }
    else record c { bbr_round = 1 }

-- The cut of the window in the drain phase.
pub bbr_drain : TcpConnection → ℕ → TcpConnection
bbr_drain c flight =
    let bdp = bbr_bdp c in
    let cut = flight / 2 in
    let less = if ltb cut c.congestion_window then c.congestion_window - cut else bdp in
    if leb (c.congestion_window / 2) flight && ltb bdp c.congestion_window
    then record c { congestion_window = if ltb less bdp then bdp else less }
    else c

-- The bandwidth sample of a round, and the start of the next interval.
pub bbr_measure : TcpConnection → ℕ → TcpConnection
bbr_measure c now =
    let rate = div64_by_32 (c.bbr_delivered * 65536) (sub32 now c.bbr_interval_start) in
    let taken =
      not (c.bbr_interval_start == 0)
      && (ltb c.bbr_interval_start now && not (c.bbr_delivered == 0)) in
    let better = taken && (leb c.bbr_bw_window_end now || ltb c.bbr_bw rate) in
    record c {
      bbr_round = 0;
      bbr_bw = if better then rate else c.bbr_bw;
      bbr_bw_window_end = if better then add32 now tcp_bbr_window else c.bbr_bw_window_end;
      bbr_delivered = 0;
      bbr_interval_start = now;
    }

abbrev pub at_least : ℕ → ℕ → ℕ
at_least low n = if ltb n low then low else n

pub bbr_startup_step : TcpConnection → TcpConnection
bbr_startup_step c =
    let scaled = mul32 (bbr_bdp c) 2885 / 1024 in
    let target = if ltb 65535 scaled then 65535 else scaled in
    let window = if ltb c.congestion_window target then target else c.congestion_window in
    let rounds = add32 c.bbr_startup_rounds 1 in
    if c.bbr_bw == 0 || c.bbr_min_rtt == 0
    then record c {
      congestion_window = add32 c.congestion_window (c.congestion_window / 8 + c.remote_mss);
    }
    else record c {
      congestion_window = window;
      bbr_startup_rounds = rounds;
      bbr_phase = if leb 2 rounds && leb target window then tcp_bbr_drain else c.bbr_phase;
    }

pub bbr_probe_bw_step : TcpConnection → ℕ → TcpConnection
bbr_probe_bw_step c now =
    let bdp = bbr_bdp c in
    let base = if bdp == 0 then c.remote_mss * 4 else bdp in
    let gain = get_or bbr_probe_gains (c.bbr_probe_count % 8) 0 in
    if leb c.bbr_min_rtt_deadline now
    then record c {
      bbr_phase = tcp_bbr_probe_rtt;
      bbr_probe_rtt_start = now;
      congestion_window = at_least (c.remote_mss * 4) (bdp / 4);
    }
    else record c {
      congestion_window = at_least (c.remote_mss * 4) (mul32 base gain / 1024);
      bbr_probe_count = add32 c.bbr_probe_count 1;
    }

pub bbr_probe_rtt_step : TcpConnection → ℕ → TcpConnection
bbr_probe_rtt_step c now =
    if leb (add32 c.bbr_probe_rtt_start tcp_bbr_probe_rtt_duration) now
    then record c { bbr_phase = tcp_bbr_probe_bw }
    else c

-- The `switch` on the phase.
pub bbr_phase_step : BbrPhase → TcpConnection → ℕ → TcpConnection
bbr_phase_step tcp_bbr_startup c now = bbr_startup_step c
bbr_phase_step tcp_bbr_drain c now = c
bbr_phase_step tcp_bbr_probe_bw c now = bbr_probe_bw_step c now
bbr_phase_step tcp_bbr_probe_rtt c now = bbr_probe_rtt_step c now

-- What an ACK does after the drain phase has had its say.
pub bbr_round_step : TcpConnection → ℕ → TcpConnection
bbr_round_step c now =
    let measured = bbr_measure c now in
    if c.bbr_round == 0 then c else bbr_phase_step measured.bbr_phase measured now

abbrev pub is_drain : BbrPhase → Bool
is_drain tcp_bbr_drain = true
is_drain p = false

pub bbr_on_ack : TcpConnection → ℕ → ℕ → ℕ → TcpConnection
bbr_on_ack c acked_bytes flight now =
    let counted = record c { bbr_delivered = add32 c.bbr_delivered acked_bytes } in
    let bdp = bbr_bdp counted in
    if is_drain c.bbr_phase && (not (bdp == 0) && leb flight bdp)
    then record counted { bbr_phase = tcp_bbr_probe_bw }
    else bbr_round_step (if is_drain c.bbr_phase then bbr_drain counted flight else counted) now

-- The phase after a retransmission timeout.
pub rto_phase : BbrPhase → ℕ → BbrPhase
rto_phase tcp_bbr_startup rtt = if rtt == 0 then tcp_bbr_startup else tcp_bbr_probe_bw
rto_phase tcp_bbr_drain rtt = if rtt == 0 then tcp_bbr_startup else tcp_bbr_probe_bw
rto_phase p rtt = p

pub bbr_on_rto : TcpConnection → ℕ → TcpConnection
bbr_on_rto c now = record c {
  congestion_window =
      if not (c.bbr_min_rtt == 0) && ltb now c.bbr_min_rtt_deadline
      then at_least (c.remote_mss * 4) (bbr_bdp c / 2)
      else c.remote_mss;
  bbr_phase = rto_phase c.bbr_phase c.bbr_min_rtt;
}
