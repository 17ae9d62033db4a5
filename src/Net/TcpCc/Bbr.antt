-- ===== src/Net/TcpCc/Bbr.antt =====
-- The BBR policy of src/net/tcp_cc.c: its phases, its filters and the floor of its window.
use mich_core.Base.{
  ℕ, ◌*◌, ◌/◌, ◌<◌, ◌≤◌, ◌≡◌, ◌≢◌, subst, ◌⊎◌, inl, inr, refl, arith, if◌then◌else◌, leb, ltb, ◌==◌,
  ◌&&◌, ◌||◌, not, true, Bool-cases, add32, mul32,
}
use mich_core.Net.TcpCc.{
  tcp_bbr_probe_rtt_duration, TcpConnection, BbrPhase, tcp_bbr_startup, tcp_bbr_drain,
  tcp_bbr_probe_bw, tcp_bbr_probe_rtt, bbr_bdp, bbr_on_ack, bbr_on_rtt, bbr_drain, bbr_measure,
  bbr_startup_step, bbr_probe_bw_step, bbr_probe_rtt_step, bbr_phase_step, bbr_round_step, is_drain,
}

-- The phases that one ACK can lead to.
pub data PhaseStep : BbrPhase → BbrPhase → Type 0 where
  stay : {p : BbrPhase} → PhaseStep p p
  fill : PhaseStep tcp_bbr_startup tcp_bbr_drain
  drained : PhaseStep tcp_bbr_drain tcp_bbr_probe_bw
  probe : PhaseStep tcp_bbr_probe_bw tcp_bbr_probe_rtt
  probed : PhaseStep tcp_bbr_probe_rtt tcp_bbr_probe_bw

startup_step :
    (c : TcpConnection)
    → c.bbr_phase ≡ tcp_bbr_startup
    → PhaseStep tcp_bbr_startup (bbr_startup_step c).bbr_phase
unfolding bbr_startup_step
startup_step c e =
    let scaled = mul32 (bbr_bdp c) 2885 / 1024 in
    let target = if ltb 65535 scaled then 65535 else scaled in
    let window = if ltb c.congestion_window target then target else c.congestion_window in
    elim (Bool-cases (c.bbr_bw == 0 || c.bbr_min_rtt == 0)) [
      | inl t ↦ rw (t, e) stay
      | inr f ↦ elim (Bool-cases (leb 2 (add32 c.bbr_startup_rounds 1) && leb target window)) [
        | inl t ↦ rw (f, t) fill
        | inr g ↦ rw (f, g, e) stay
      ]
    ]

probe_bw_step :
    (c : TcpConnection) (now : ℕ)
    → c.bbr_phase ≡ tcp_bbr_probe_bw
    → PhaseStep tcp_bbr_probe_bw (bbr_probe_bw_step c now).bbr_phase
unfolding bbr_probe_bw_step
probe_bw_step c now e = elim (Bool-cases (leb c.bbr_min_rtt_deadline now)) [
  | inl t ↦ rw t probe
  | inr f ↦ rw (f, e) stay
]

probe_rtt_step :
    (c : TcpConnection) (now : ℕ)
    → c.bbr_phase ≡ tcp_bbr_probe_rtt
    → PhaseStep tcp_bbr_probe_rtt (bbr_probe_rtt_step c now).bbr_phase
unfolding bbr_probe_rtt_step
probe_rtt_step c now e =
    elim (Bool-cases (leb (add32 c.bbr_probe_rtt_start tcp_bbr_probe_rtt_duration) now)) [
      | inl t ↦ rw t probed
      | inr f ↦ rw (f, e) stay
    ]

switch_step :
    (p : BbrPhase) (c : TcpConnection) (now : ℕ)
    → c.bbr_phase ≡ p
    → PhaseStep p (bbr_phase_step p c now).bbr_phase
unfolding bbr_phase_step
switch_step tcp_bbr_startup c now e = startup_step c e
switch_step tcp_bbr_drain c now e = rw e stay
switch_step tcp_bbr_probe_bw c now e = probe_bw_step c now e
switch_step tcp_bbr_probe_rtt c now e = probe_rtt_step c now e

round_step : (c : TcpConnection) (now : ℕ) → PhaseStep c.bbr_phase (bbr_round_step c now).bbr_phase
unfolding bbr_round_step bbr_measure
round_step c now = elim (Bool-cases (c.bbr_round == 0)) [
  | inl t ↦ rw t stay
  | inr f ↦ rw f (switch_step c.bbr_phase (bbr_measure c now) now refl)
]

drain_phase : (c : TcpConnection) (flight : ℕ) → (bbr_drain c flight).bbr_phase ≡ c.bbr_phase
unfolding bbr_drain
drain_phase c flight =
    elim (Bool-cases
      (leb (c.congestion_window / 2) flight && ltb (bbr_bdp c) c.congestion_window)) [
        | inl t ↦ rw t refl
        | inr f ↦ rw f refl
      ]

drain_case : (p : BbrPhase) → is_drain p ≡ true → p ≡ tcp_bbr_drain
drain_case tcp_bbr_startup e = cc
drain_case tcp_bbr_drain e = refl
drain_case tcp_bbr_probe_bw e = cc
drain_case tcp_bbr_probe_rtt e = cc

-- An ACK stays in the phase or takes one of the four edges of `PhaseStep`: startup to drain,
-- drain to the bandwidth probe, and the two between the bandwidth probe and the round-trip probe.
pub bbr_on_ack-PhaseStep :
    (c : TcpConnection) (acked_bytes flight now : ℕ)
    → PhaseStep c.bbr_phase (bbr_on_ack c acked_bytes flight now).bbr_phase
unfolding bbr_on_ack
bbr_on_ack-PhaseStep c acked_bytes flight now =
    let counted = record c { bbr_delivered = add32 c.bbr_delivered acked_bytes } in
    elim (Bool-cases (is_drain c.bbr_phase)) [
      | inr f ↦ rw f (round_step counted now)
      | inl t ↦ elim (Bool-cases (not (bbr_bdp counted == 0) && leb flight (bbr_bdp counted))) [
        | inl u ↦ rw (t, u, drain_case c.bbr_phase t) drained
        | inr f ↦
            let w = bbr_round_step (bbr_drain counted flight) now in
            rw (t, f)
              (subst (λ p. PhaseStep p w.bbr_phase) (drain_phase counted flight)
                (round_step (bbr_drain counted flight) now))
      ]
    ]

-- `bbr_bdp` is 0 while there is no bandwidth or no round-trip sample, and otherwise lies between
-- four segments and 65535, where four segments fit.
pub bbr_bdp_bounds :
    (c : TcpConnection)
    → c.remote_mss * 4 ≤ 65535
    → ((c.bbr_bw ≡ 0) ⊎ (c.bbr_min_rtt ≡ 0) → bbr_bdp c ≡ 0)
      × (c.bbr_bw ≢ 0 → c.bbr_min_rtt ≢ 0 → (c.remote_mss * 4 ≤ bbr_bdp c) × (bbr_bdp c ≤ 65535))
unfolding bbr_bdp
bbr_bdp_bounds c h = ground arith

-- A sample leaves a least round trip that is at most the sample, and at most the old one while
-- the window of that one is open. A sample of 0 changes nothing of it. Each sample marks a round.
pub bbr_on_rtt_lem :
    (c : TcpConnection) (sample now : ℕ)
    → let c' = bbr_on_rtt c sample now in
      (sample ≢ 0 → c'.bbr_min_rtt ≤ sample)
      × (c.bbr_min_rtt ≢ 0 → now < c.bbr_min_rtt_deadline → c'.bbr_min_rtt ≤ c.bbr_min_rtt)
      × (sample ≡ 0 → c'.bbr_min_rtt ≡ c.bbr_min_rtt)
      × (c'.bbr_round ≡ 1)
unfolding bbr_on_rtt
bbr_on_rtt_lem c sample now = ground arith

-- In the bandwidth probe, an ACK that ends a round leaves a window of at least four segments.
pub bbr_on_ack-floor :
    (c : TcpConnection) (acked_bytes flight now : ℕ)
    → c.bbr_phase ≡ tcp_bbr_probe_bw
    → c.bbr_round ≢ 0
    → c.remote_mss * 4 ≤ (bbr_on_ack c acked_bytes flight now).congestion_window
unfolding bbr_on_ack bbr_round_step bbr_phase_step bbr_probe_bw_step bbr_measure
bbr_on_ack-floor c acked_bytes flight now e h = rw e (ground arith)
