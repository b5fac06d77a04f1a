-- ===== src/LocalNetwork/Deliveries.antt =====
-- `TickLocalNetwork`: sending and delivering keep the packets in flight in order.
use tick_synchronizer.Prelude.{
  ℕ, ◌+◌, ◌%◌, ◌^◌, ◌≤◌, ◌<◌, ◌≡◌, refl, sym, ap, ◌∙◌, true, ◌||◌, none, some, Option-cases,
  Bool-cases, List, [], ◌∷◌, length, All, inl, inr, arith, ltb, leb, ◌==◌,
}
use tick_synchronizer.Prelude.Int.{ℤ, pos, pos_part, ltb_ℤ, leb_ℤ}
use tick_synchronizer.Prelude.Maps.{Keys, lookup, insert, has}
use tick_synchronizer.Transport.{TransferMode, is_ordered, is_ok}
use tick_synchronizer.LocalNetwork.{InFlightPacket, Engine, LocalNetwork, make_link_key, get_peer}
use tick_synchronizer.LocalNetwork.Links.{present_of, connected_of, linked-below}
use tick_synchronizer.LocalNetwork.Linking.{Linked, get_peer-cases}
use tick_synchronizer.LocalNetwork.Traffic.{
  draw_loss, launch, draw_delay, send, send_each, transport_send, hand_over, hand_over_newer,
  deliver, deliver_loop, process_usec,
}
use tick_synchronizer.LocalNetwork.Order.{InOrder, nil-InOrder, tail-InOrder, sort-InOrder}
use tick_synchronizer.LocalNetwork.Arrivals.{
  Flows, SameTraffic, SameTraffic-refl, SameTraffic-Flows, launch-Flows,
}

All-has : (P : ℕ → Type 0) (s : Keys) → ((y : ℕ) → has y s ≡ true → P y) → All P s
unfolding has
All-has P [] h = tt
All-has P (x ∷ s) h = (h x (ground arith), All-has P s (λ y e. h y (ground (arith, e))))

module _ {g : Engine} where
  draw_loss-SameTraffic :
      (n : LocalNetwork g) (mode : TransferMode) → SameTraffic n (draw_loss n mode).0
  unfolding draw_loss
  draw_loss-SameTraffic n mode = record {
    same_arrivals = ground arith;
    same_sequence = ground arith;
    same_flight = ground arith;
    same_channels = ground arith;
  }

  launch-next :
      (n : LocalNetwork g) (from to channel : ℕ) (mode : TransferMode) (bytes : List ℕ)
      → (launch n from to channel mode bytes).next_sequence ≤ n.next_sequence + 1
  unfolding launch draw_delay
  launch-next n from to channel mode bytes = ground arith

  send-Flows :
      (n : LocalNetwork g) (from to : ℕ) (channel : ℤ) (mode : TransferMode) (bytes : List ℕ)
      → from < 2 ^ 24
      → to < 2 ^ 24
      → n.next_sequence + 1 < 2 ^ 64
      → Flows n
      → Flows (send n from to channel mode bytes).0
        × ((send n from to channel mode bytes).0.next_sequence ≤ n.next_sequence + 1)
  unfolding send
  send-Flows n from to channel mode bytes a b room h =
      let counted = record n {
        sent_packets = (n.sent_packets + 1) % 2 ^ 64;
        sent_bytes = (n.sent_bytes + length bytes) % 2 ^ 64;
      } in
      let m = (draw_loss counted mode).0 in
      let same = draw_loss-SameTraffic counted mode in
      let k =
        SameTraffic-Flows counted m same
          (record { arranged = h.arranged; channels = h.channels }) in
      elim (Bool-cases (ltb_ℤ channel (pos 0) || leb_ℤ (pos n.channel_count) channel)) [
        | inl e ↦ rw e (h, omega arith)
        | inr e ↦ elim (Bool-cases (draw_loss counted mode).1) [
          | inl t ↦
              rw (e, t)
                (
                  record { arranged = k.arranged; channels = k.channels },
                  omega (arith, same.same_sequence),
                )
          | inr t ↦
              let few : pos_part channel < 255 = ground (arith, h.channels) in
              rw (e, t)
                (
                  launch-Flows m from to (pos_part channel) mode bytes a b few
                      (omega (arith, same.same_sequence)) k,
                  omega (
                    arith,
                    same.same_sequence,
                    launch-next m from to (pos_part channel) mode bytes,
                  ),
                )
        ]
      ]

  send_each-Flows :
      (n : LocalNetwork g) (from : ℕ) (tos : List ℕ) (channel : ℤ) (mode : TransferMode)
      (bytes : List ℕ)
      → from < 2 ^ 24
      → All (λ to. to < 2 ^ 24) tos
      → n.next_sequence + length tos < 2 ^ 64
      → Flows n
      → Flows (send_each n from tos channel mode bytes).0
  unfolding send_each
  send_each-Flows n from [] channel mode bytes a b room h = h
  send_each-Flows n from (to ∷ tos) channel mode bytes a b room h =
      let m = (send n from to channel mode bytes).0 in
      let k = send-Flows n from to channel mode bytes a b.0 (omega arith) h in
      elim (Bool-cases (is_ok (send n from to channel mode bytes).1)) [
        | inl e ↦
            rw e (send_each-Flows m from tos channel mode bytes a b.1 (omega (arith, k.1)) k.0)
        | inr e ↦ rw e k.0
      ]

  -- The packets that a call of `TickLocalTransport::send` may make.
  unfoldable pub most_sent : LocalNetwork g → ℕ → ℕ
  unfolding get_peer
  most_sent n from = elim (get_peer n from) [ none ↦ 0 | some e ↦ length e.connected_peers + 1 ]

  pub transport_send-Flows :
      (n : LocalNetwork g) (from : ℕ) (target channel : ℤ) (mode : TransferMode) (bytes : List ℕ)
      → n.next_peer_id ≤ 2 ^ 24
      → n.next_sequence + most_sent n from < 2 ^ 64
      → Linked n
      → Flows n
      → Flows (transport_send n from target channel mode bytes).0
  unfolding transport_send most_sent
  transport_send-Flows n from target channel mode bytes l room k h = elim (get_peer-cases n from) [
    | inl (e, _) ↦ rw (e, transport_send) h
    | inr (x, e, f, t) ↦
        let counted : n.next_sequence + (length x.connected_peers + 1) < 2 ^ 64 =
          rw (e, most_sent) at room in
        let a : from < 2 ^ 24 = ground (arith, k.fresh from, ap present_of f) in
        let near : (y : ℕ) → has y x.connected_peers ≡ true → y < 2 ^ 24 = λ y c.
          (let s = sym (k.symmetric from y) ∙ ap (λ o. connected_of o y) f ∙ c in
            let below = linked-below n.endpoints n.next_peer_id y from k s in
            omega (arith, below, l)) in
        let all =
          send_each-Flows n from x.connected_peers channel mode bytes a
            (All-has (λ y. y < 2 ^ 24) x.connected_peers near) (omega arith) h in
        rw (e, transport_send)
          (elim (Bool-cases (ltb_ℤ target (pos 0))) [
            | inl t ↦ rw t h
            | inr t ↦ elim (Bool-cases (pos_part target == 0)) [
              | inl z ↦ rw (t, z) all
              | inr z ↦ elim (Bool-cases (has (pos_part target) x.connected_peers)) [
                | inl c ↦
                    rw (t, z, c)
                      (send-Flows n from (pos_part target) channel mode bytes a
                        (near (pos_part target) c) (omega arith) h).0
                | inr c ↦ rw (t, z, c) h
              ]
            ]
          ])
  ]

  hand_over_newer-SameTraffic :
      (n : LocalNetwork g) (p : InFlightPacket) → SameTraffic n (hand_over_newer n p)
  unfolding hand_over_newer hand_over
  hand_over_newer-SameTraffic n p =
      let key = make_link_key p.packet.from_peer p.to_peer p.packet.channel in
      let later : SameTraffic n (
          hand_over
            (record n { last_ordered_sequence = insert key p.sequence n.last_ordered_sequence })
            p) =
        record {
          same_arrivals = refl;
          same_sequence = refl;
          same_flight = refl;
          same_channels = refl;
        } in
      elim (Option-cases (lookup key n.last_ordered_sequence)) [
        | inl e ↦ rw (e, hand_over_newer) later
        | inr (last, e) ↦ elim (Bool-cases (ltb p.sequence last)) [
          | inl c ↦ rw (e, hand_over_newer, c) (SameTraffic-refl n)
          | inr c ↦ rw (e, hand_over_newer, c) later
        ]
      ]

  pub deliver-SameTraffic : (n : LocalNetwork g) (p : InFlightPacket) → SameTraffic n (deliver n p)
  unfolding deliver hand_over
  deliver-SameTraffic n p = elim (Option-cases (get_peer n p.to_peer)) [
    | inl e ↦ rw (e, deliver) (SameTraffic-refl n)
    | inr (x, e) ↦
        rw (e, deliver)
          (elim (Bool-cases (has p.packet.from_peer x.connected_peers)) [
            | inr c ↦ rw c (SameTraffic-refl n)
            | inl c ↦ elim (Bool-cases (is_ordered p.packet.mode)) [
              | inl o ↦ rw (c, o) (hand_over_newer-SameTraffic n p)
              | inr o ↦
                  rw (c, o)
                    (record {
                      same_arrivals = refl;
                      same_sequence = refl;
                      same_flight = refl;
                      same_channels = refl;
                    })
            ]
          ])
  ]

  deliver_loop-Flows :
      (n : LocalNetwork g) (ps : List InFlightPacket)
      → InOrder n.last_reliable_arrival (2 ^ 24) n.next_sequence ps
      → n.channel_count ≤ 255
      → Flows (deliver_loop n ps)
  unfolding deliver_loop
  deliver_loop-Flows n [] h c = record {
    arranged = nil-InOrder n.last_reliable_arrival (2 ^ 24) n.next_sequence;
    channels = c;
  }
  deliver_loop-Flows n (p ∷ ps) h c = elim (Bool-cases (leb p.deliver_at_usec n.time_usec)) [
    | inl e ↦
        let s = deliver-SameTraffic n p in
        let t = tail-InOrder n.last_reliable_arrival (2 ^ 24) n.next_sequence p ps h in
        rw e (
          deliver_loop-Flows (deliver n p) ps (rw (s.same_arrivals, s.same_sequence) t)
            (omega (arith, s.same_channels)))
    | inr e ↦ rw e (record { arranged = h; channels = c })
  ]

  pub process_usec-Flows : (n : LocalNetwork g) (delta : ℕ) → Flows n → Flows (process_usec n delta)
  unfolding process_usec
  process_usec-Flows n delta h = elim (Bool-cases (length n.in_flight == 0)) [
    | inl e ↦ rw e (record { arranged = h.arranged; channels = h.channels })
    | inr e ↦ rw e (
        deliver_loop-Flows (record n { time_usec = (n.time_usec + delta) % 2 ^ 64 })
          (g.sort n.in_flight)
          (sort-InOrder g n.last_reliable_arrival (2 ^ 24) n.next_sequence n.in_flight h.arranged)
          h.channels)
  ]
