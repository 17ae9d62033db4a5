-- ===== src/Net/TcpCc/Reno.antt =====
-- The Reno policy of src/net/tcp_cc.c: how its window moves.
use mich_core.Base.{ℕ, ◌+◌, ◌*◌, ◌/◌, ◌^◌, ◌<◌, ◌≤◌, ◌≡◌, arith, max}
use mich_core.Net.TcpCc.{
  TcpConnection, reno_increase, reno_on_ack, reno_on_fast_retransmit, reno_on_rto,
}

increase_pos : (c : TcpConnection) (acked_bytes : ℕ) → 0 < reno_increase c acked_bytes
unfolding reno_increase
increase_pos c acked_bytes = ground arith

-- While the window is at most 65535, an ACK keeps it there and opens it, unless it is fully open.
pub reno_on_ack-window :
    (c : TcpConnection) (acked_bytes : ℕ)
    → c.congestion_window ≤ 65535
    → let w = (reno_on_ack c acked_bytes).congestion_window in
      (w ≤ 65535)
      × (c.congestion_window ≤ w)
      × (c.congestion_window < 65535 → c.congestion_window < w)
unfolding reno_on_ack
reno_on_ack-window c acked_bytes h = ground (arith, increase_pos c acked_bytes)

-- Three duplicate ACKs set the threshold to half the window, at least two segments, and the
-- window three segments above it. A timeout then sets the window to one segment and leaves that
-- threshold. The window is below 2 ^ 32 and the segment size below 2 ^ 16.
pub reno_loss_lem :
    (c : TcpConnection)
    → c.congestion_window < 2 ^ 32
    → c.remote_mss < 2 ^ 16
    → let fast = reno_on_fast_retransmit c in
      let late = reno_on_rto fast in
      (fast.slow_start_threshold ≡ max (c.congestion_window / 2) (c.remote_mss * 2))
      × (fast.congestion_window ≡ fast.slow_start_threshold + c.remote_mss * 3)
      × (late.congestion_window ≡ c.remote_mss)
      × (late.slow_start_threshold ≡ fast.slow_start_threshold)
unfolding reno_on_fast_retransmit reno_on_rto
reno_loss_lem c hw hm = ground arith
