-- ===== src/Net/TcpCc/Tests.antt =====
-- Concrete runs of the congestion policies of src/net/tcp_cc.c.
use mich_core.Base.{ℕ, ◌*◌, ◌-◌, ◌/◌, ◌^◌, ◌≡◌, refl, arith}
use mich_core.Net.TcpCc.{
  TcpConnection, tcp_bbr_probe_bw, bbr_on_ack, div64_by_32, divide_low, divide_high,
}
use mich_core.Net.TcpCc.Division.{div64_by_32_lem}
use mich_core.Net.TcpCc.Bbr.{PhaseStep, bbr_on_ack-PhaseStep}

abbrev connection : TcpConnection
connection = record {
  remote_mss = 1460;
  congestion_window = 14600;
  slow_start_threshold = 65535;
  bbr_phase = tcp_bbr_probe_bw;
  bbr_min_rtt = 20;
  bbr_min_rtt_deadline = 11000;
  bbr_bw = 65536000;
  bbr_bw_window_end = 10500;
  bbr_delivered = 5840;
  bbr_interval_start = 1000;
  bbr_probe_count = 3;
  bbr_probe_rtt_start = 0;
  bbr_startup_rounds = 2;
  bbr_round = 1;
}

division_run : div64_by_32 (2920 * 65536) 7 ≡ 27337874
unfolding div64_by_32 divide_low
division_run = refl

-- A quotient that does not fit 32 bits comes back as all ones.
overflow_run : div64_by_32 (2 ^ 32) 1 ≡ 2 ^ 32 - 1
unfolding div64_by_32 divide_high
overflow_run = refl

div64_by_32_lem_example : div64_by_32 (2920 * 65536) 7 ≡ 2920 * 65536 / 7
div64_by_32_lem_example = div64_by_32_lem (2920 * 65536) 7 (omega arith) (omega arith)

bbr_on_ack-PhaseStep_example :
    PhaseStep tcp_bbr_probe_bw (bbr_on_ack connection 1460 5840 11000).bbr_phase
bbr_on_ack-PhaseStep_example = bbr_on_ack-PhaseStep connection 1460 5840 11000

abbrev sample : ℕ
sample = 12
