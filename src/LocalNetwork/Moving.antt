-- ===== src/LocalNetwork/Moving.antt =====
-- `TickLocalNetwork`: sending and delivering keep the links.
use tick_synchronizer.Prelude.{
  ℕ, ◌+◌, ◌%◌, ◌^◌, ◌≡◌, refl, Option-cases, Bool-cases, List, [], ◌∷◌, length, inl, inr, arith,
  leb, ltb, ◌==◌,
}
use tick_synchronizer.Prelude.Int.{ℤ, pos, pos_part, ltb_ℤ}
use tick_synchronizer.Prelude.Maps.{lookup, insert, has}
use tick_synchronizer.Transport.{TransferMode, is_ok, is_ordered}
use tick_synchronizer.LocalNetwork.{
  InFlightPacket, Engine, Endpoint, LocalNetwork, update_endpoint, set_channel_count,
  set_packet_loss, make_link_key,
}
use tick_synchronizer.LocalNetwork.Traffic.{
  draw_loss, draw_delay, launch, send, send_each, transport_send, disconnect_peer, push_packet,
  hand_over, hand_over_newer, deliver, deliver_loop, process_usec, process,
}
use tick_synchronizer.LocalNetwork.Links.{KeepsLinks, update-IsLinked}
use tick_synchronizer.LocalNetwork.Linking.{Linked, get_peer-cases, disconnect_peers-Unlinks}

module _ {g : Engine} where
  -- A network with the same endpoints.
  unfoldable pub SameEndpoints : LocalNetwork g → LocalNetwork g → Type 0
  SameEndpoints n m = (m.endpoints ≡ n.endpoints) × (m.next_peer_id ≡ n.next_peer_id)

  pub SameEndpoints-Linked : (n m : LocalNetwork g) → SameEndpoints n m → Linked n → Linked m
  unfolding SameEndpoints
  SameEndpoints-Linked n m s h = rw (s.0, s.1) h

  pub send-SameEndpoints :
      (n : LocalNetwork g) (from to : ℕ) (channel : ℤ) (mode : TransferMode) (bytes : List ℕ)
      → SameEndpoints n (send n from to channel mode bytes).0
  unfolding SameEndpoints send draw_loss launch draw_delay
  send-SameEndpoints n from to channel mode bytes = (ground arith, ground arith)

  pub send_each-Linked :
      (n : LocalNetwork g) (from : ℕ) (tos : List ℕ) (channel : ℤ) (mode : TransferMode)
      (bytes : List ℕ)
      → Linked n
      → Linked (send_each n from tos channel mode bytes).0
  unfolding send_each
  send_each-Linked n from [] channel mode bytes h = h
  send_each-Linked n from (to ∷ tos) channel mode bytes h =
      let m = (send n from to channel mode bytes).0 in
      let k = SameEndpoints-Linked n m (send-SameEndpoints n from to channel mode bytes) h in
      elim (Bool-cases (is_ok (send n from to channel mode bytes).1)) [
        | inl e ↦ rw e (send_each-Linked m from tos channel mode bytes k)
        | inr e ↦ rw e k
      ]

  pub transport_send-Linked :
      (n : LocalNetwork g) (from : ℕ) (target channel : ℤ) (mode : TransferMode) (bytes : List ℕ)
      → Linked n
      → Linked (transport_send n from target channel mode bytes).0
  unfolding transport_send
  transport_send-Linked n from target channel mode bytes h = elim (get_peer-cases n from) [
    | inl (e, t) ↦ rw (e, transport_send) h
    | inr (x, e, f, t) ↦
        let all = send_each-Linked n from x.connected_peers channel mode bytes h in
        let one =
          SameEndpoints-Linked n _ (send-SameEndpoints n from (pos_part target) channel mode bytes)
            h in
        rw (e, transport_send)
          (elim (Bool-cases (ltb_ℤ target (pos 0))) [
            | inl t ↦ rw t h
            | inr t ↦ elim (Bool-cases (pos_part target == 0)) [
              | inl z ↦ rw (t, z) all
              | inr z ↦ elim (Bool-cases (has (pos_part target) x.connected_peers)) [
                | inl c ↦ rw (t, z, c) one
                | inr c ↦ rw (t, z, c) h
              ]
            ]
          ])
  ]

  pub hand_over-Linked :
      (n : LocalNetwork g) (p : InFlightPacket) → Linked n → Linked (hand_over n p)
  unfolding hand_over
  hand_over-Linked n p h =
      update-IsLinked p.to_peer (push_packet p.packet) n.endpoints n.next_peer_id
        (λ e. (unfold push_packet in refl, unfold push_packet in refl)) h

  pub hand_over_newer-Linked :
      (n : LocalNetwork g) (p : InFlightPacket) → Linked n → Linked (hand_over_newer n p)
  unfolding hand_over_newer
  hand_over_newer-Linked n p h =
      let key = make_link_key p.packet.from_peer p.to_peer p.packet.channel in
      let later =
        hand_over-Linked
          (record n { last_ordered_sequence = insert key p.sequence n.last_ordered_sequence }) p
          h in
      elim (Option-cases (lookup key n.last_ordered_sequence)) [
        | inl e ↦ rw (e, hand_over_newer) later
        | inr (last, e) ↦ elim (Bool-cases (ltb p.sequence last)) [
          | inl c ↦ rw (e, hand_over_newer, c) h
          | inr c ↦ rw (e, hand_over_newer, c) later
        ]
      ]

  pub deliver-Linked : (n : LocalNetwork g) (p : InFlightPacket) → Linked n → Linked (deliver n p)
  unfolding deliver
  deliver-Linked n p h = elim (get_peer-cases n p.to_peer) [
    | inl (e, t) ↦ rw (e, deliver) h
    | inr (x, e, f, t) ↦
        rw (e, deliver)
          (elim (Bool-cases (has p.packet.from_peer x.connected_peers)) [
            | inr c ↦ rw c h
            | inl c ↦ elim (Bool-cases (is_ordered p.packet.mode)) [
              | inl o ↦ rw (c, o) (hand_over_newer-Linked n p h)
              | inr o ↦ rw (c, o) (hand_over-Linked n p h)
            ]
          ])
  ]

  pub deliver_loop-Linked :
      (n : LocalNetwork g) (ps : List InFlightPacket) → Linked n → Linked (deliver_loop n ps)
  unfolding deliver_loop
  deliver_loop-Linked n [] h = h
  deliver_loop-Linked n (p ∷ ps) h = elim (Bool-cases (leb p.deliver_at_usec n.time_usec)) [
    | inl e ↦ rw e (deliver_loop-Linked (deliver n p) ps (deliver-Linked n p h))
    | inr e ↦ rw e h
  ]

  pub process_usec-Linked :
      (n : LocalNetwork g) (delta : ℕ) → Linked n → Linked (process_usec n delta)
  unfolding process_usec
  process_usec-Linked n delta h = elim (Bool-cases (length n.in_flight == 0)) [
    | inl e ↦ rw e h
    | inr e ↦ rw e (
        deliver_loop-Linked (record n { time_usec = (n.time_usec + delta) % 2 ^ 64 })
          (g.sort n.in_flight) h)
  ]

  pub disconnect_peer-Linked :
      (n : LocalNetwork g) (p other : ℕ) → Linked n → Linked (disconnect_peer n p other)
  unfolding disconnect_peer
  disconnect_peer-Linked n p other h = elim (get_peer-cases n p) [
    | inl (e, _) ↦ rw (e, disconnect_peer) h
    | inr (x, e, _, _) ↦ rw (e, disconnect_peer) (disconnect_peers-Unlinks n p other h).linked
  ]

  pub process-Linked : (n : LocalNetwork g) (delta : g.Real) → Linked n → Linked (process n delta)
  unfolding process
  process-Linked n delta h = elim (Bool-cases (g.real_le g.nought delta)) [
    | inl e ↦ rw e (process_usec-Linked n (g.usec_of_seconds delta) h)
    | inr e ↦ rw e h
  ]

  pub set_channel_count-SameEndpoints :
      (n : LocalNetwork g) (count : ℤ) → SameEndpoints n (set_channel_count n count)
  unfolding SameEndpoints set_channel_count
  set_channel_count-SameEndpoints n count = (ground arith, ground arith)

  pub set_packet_loss-SameEndpoints :
      (n : LocalNetwork g) (loss : g.Real) → SameEndpoints n (set_packet_loss n loss)
  unfolding SameEndpoints set_packet_loss
  set_packet_loss-SameEndpoints n loss = (ground arith, ground arith)

  pub transfer-Linked :
      (n : LocalNetwork g) (p : ℕ) (f : Endpoint → Endpoint)
      → KeepsLinks f
      → Linked n
      → Linked (record n { endpoints = update_endpoint p f n.endpoints })
  transfer-Linked n p f k h = update-IsLinked p f n.endpoints n.next_peer_id k h
