-- ===== src/LocalNetwork/Arrivals.antt =====
-- `TickLocalNetwork`: every call keeps the packets in flight in order.
use tick_synchronizer.Prelude.{
  ℕ, ◌+◌, ◌%◌, ◌^◌, ◌≤◌, ◌<◌, ◌≡◌, ◌≢◌, refl, ap, true, not, Option-cases, Bool-cases, List, [],
  ◌∷◌, inl, inr, arith, ◌==◌,
}
use tick_synchronizer.Prelude.Maps.{has}
use tick_synchronizer.Transport.{TransferMode}
use tick_synchronizer.LocalNetwork.{
  InFlightPacket, Engine, LocalNetwork, make_link_key, is_between, get_peer, is_peer_connected,
  connect_peers, disconnect_peers, drop_in_flight_between, disconnect_each, remove_peer,
  connect_row, connect_rows, connect_all, attached_ids,
}
use tick_synchronizer.LocalNetwork.LinkKeys.{make_link_key_inj}
use tick_synchronizer.LocalNetwork.Links.{present_of}
use tick_synchronizer.LocalNetwork.Linking.{Linked, get_peer-cases, disconnect_peers-Unlinks}
use tick_synchronizer.LocalNetwork.Traffic.{draw_delay, launch}
use tick_synchronizer.LocalNetwork.Order.{
  key_of, InBounds, InOrder, launched-InOrder, filter-InOrder, lookup-forget_channels,
}

-- A packet that is not between two peers has none of their keys.
not_between-keys :
    (a b c next : ℕ) (p : InFlightPacket)
    → a < 2 ^ 24
    → b < 2 ^ 24
    → c < 2 ^ 16
    → InBounds (2 ^ 24) next p
    → not (is_between a b p) ≡ true
    → (make_link_key a b c ≢ key_of p) × (make_link_key b a c ≢ key_of p)
unfolding is_between
not_between-keys a b c next p ha hb hc w q = (
  λ r.
      (let same =
          make_link_key_inj a b c p.packet.from_peer p.to_peer p.packet.channel ha hb hc
            w.from_bound w.to_bound (omega (arith, w.channel_bound)) r in
        ground (arith, same, q)),
  λ r.
      (let same =
          make_link_key_inj b a c p.packet.from_peer p.to_peer p.packet.channel hb ha hc
            w.from_bound w.to_bound (omega (arith, w.channel_bound)) r in
        ground (arith, same, q)),
)

module _ {g : Engine} where
  -- The packets in flight are in order, and the channels fit 8 bits.
  pub record Flows (n : LocalNetwork g) : Type 0 where
    pub arranged : InOrder n.last_reliable_arrival (2 ^ 24) n.next_sequence n.in_flight
    pub channels : n.channel_count ≤ 255

  -- A network with the same traffic.
  pub record SameTraffic (n m : LocalNetwork g) : Type 0 where
    pub same_arrivals : m.last_reliable_arrival ≡ n.last_reliable_arrival
    pub same_sequence : m.next_sequence ≡ n.next_sequence
    pub same_flight : m.in_flight ≡ n.in_flight
    pub same_channels : m.channel_count ≡ n.channel_count

  pub SameTraffic-refl : (n : LocalNetwork g) → SameTraffic n n
  SameTraffic-refl n = record {
    same_arrivals = refl;
    same_sequence = refl;
    same_flight = refl;
    same_channels = refl;
  }

  pub SameTraffic-Flows : (n m : LocalNetwork g) → SameTraffic n m → Flows n → Flows m
  SameTraffic-Flows n m s h = record {
    arranged = rw (s.same_arrivals, s.same_sequence, s.same_flight) h.arranged;
    channels = omega (arith, s.same_channels, h.channels);
  }

  draw_delay-SameTraffic :
      (n : LocalNetwork g) (from to : ℕ) → SameTraffic n (draw_delay n from to).0
  unfolding draw_delay
  draw_delay-SameTraffic n from to = record {
    same_arrivals = ground arith;
    same_sequence = ground arith;
    same_flight = ground arith;
    same_channels = ground arith;
  }

  pub launch-Flows :
      (n : LocalNetwork g) (from to channel : ℕ) (mode : TransferMode) (bytes : List ℕ)
      → from < 2 ^ 24
      → to < 2 ^ 24
      → channel < 255
      → n.next_sequence + 1 < 2 ^ 64
      → Flows n
      → Flows (launch n from to channel mode bytes)
  unfolding launch
  launch-Flows n from to channel mode bytes a b c room h =
      let m = (draw_delay n from to).0 in
      let k = SameTraffic-Flows n m (draw_delay-SameTraffic n from to) h in
      let next : (m.next_sequence + 1) % 2 ^ 64 ≡ m.next_sequence + 1 =
        omega (arith, (draw_delay-SameTraffic n from to).same_sequence) in
      record {
        arranged = rw next (
            launched-InOrder m.last_reliable_arrival (2 ^ 24) m.next_sequence m.in_flight from to
              channel ((m.time_usec + (draw_delay n from to).1) % 2 ^ 64) mode bytes a b c
              k.arranged);
        channels = k.channels;
      }

  pub disconnect_peers-Flows :
      (n : LocalNetwork g) (a b : ℕ)
      → n.next_peer_id ≤ 2 ^ 24
      → Linked n
      → Flows n
      → Flows (disconnect_peers n a b)
  unfolding disconnect_peers drop_in_flight_between
  disconnect_peers-Flows n a b l k h = elim (get_peer-cases n a) [
    | inl (e, _) ↦ rw (e, disconnect_peers) h
    | inr (x, e, f, t) ↦ elim (get_peer-cases n b) [
      | inl (e', _) ↦ rw (e, disconnect_peers, e') h
      | inr (y, e', f', t') ↦ elim (Bool-cases (has b x.connected_peers)) [
        | inr c ↦ rw (e, disconnect_peers, e', c) h
        | inl c ↦
            let ha : a < 2 ^ 24 = ground (arith, k.fresh a, ap present_of f) in
            let hb : b < 2 ^ 24 = ground (arith, k.fresh b, ap present_of f') in
            rw (e, disconnect_peers, e', c)
              (record {
                arranged =
                    filter-InOrder n.last_reliable_arrival _ (2 ^ 24) n.next_sequence _ n.in_flight
                      (λ p w q.
                        lookup-forget_channels n.channel_count 0 a b (key_of p)
                          n.last_reliable_arrival
                          (λ c l.
                            (not_between-keys a b c n.next_sequence p ha hb
                              (omega (arith, l, h.channels)) w q).0)
                          (λ c l.
                            (not_between-keys a b c n.next_sequence p ha hb
                              (omega (arith, l, h.channels)) w q).1))
                      h.arranged;
                channels = h.channels;
              })
      ]
    ]
  ]

  disconnect_peers-same_ids :
      (n : LocalNetwork g) (a b : ℕ) → (disconnect_peers n a b).next_peer_id ≡ n.next_peer_id
  unfolding disconnect_peers drop_in_flight_between
  disconnect_peers-same_ids n a b = elim (Option-cases (get_peer n a)) [
    | inl e ↦ rw (e, disconnect_peers) refl
    | inr (x, e) ↦ elim (Option-cases (get_peer n b)) [
      | inl e' ↦ rw (e, disconnect_peers, e') refl
      | inr (y, e') ↦ rw (e, disconnect_peers, e') (ground arith)
    ]
  ]

  -- The loop of `remove_peer`.
  disconnect_each-Flows :
      (n : LocalNetwork g) (p : ℕ) (qs : List ℕ)
      → n.next_peer_id ≤ 2 ^ 24
      → Linked n
      → Flows n
      → Flows (disconnect_each n p qs)
  unfolding disconnect_each
  disconnect_each-Flows n p [] l k h = h
  disconnect_each-Flows n p (q ∷ qs) l k h =
      disconnect_each-Flows (disconnect_peers n p q) p qs
        (omega (arith, disconnect_peers-same_ids n p q)) (disconnect_peers-Unlinks n p q k).linked
        (disconnect_peers-Flows n p q l k h)

  pub remove_peer-Flows :
      (n : LocalNetwork g) (p : ℕ)
      → n.next_peer_id ≤ 2 ^ 24
      → Linked n
      → Flows n
      → Flows (remove_peer n p)
  unfolding remove_peer
  remove_peer-Flows n p l k h = elim (Option-cases (get_peer n p)) [
    | inl e ↦ rw (e, remove_peer) h
    | inr (x, e) ↦
        let r = disconnect_each-Flows n p x.connected_peers l k h in
        rw (e, remove_peer) (record { arranged = r.arranged; channels = r.channels })
  ]

  connect_peers-SameTraffic : (n : LocalNetwork g) (a b : ℕ) → SameTraffic n (connect_peers n a b).0
  unfolding connect_peers
  connect_peers-SameTraffic n a b = elim (Bool-cases (a == b)) [
    | inl s ↦ simp s (SameTraffic-refl n)
    | inr s ↦ elim (Option-cases (get_peer n a)) [
      | inl e ↦ simp (s, e) (SameTraffic-refl n)
      | inr (x, e) ↦ elim (Option-cases (get_peer n b)) [
        | inl e' ↦ simp (s, e, e') (SameTraffic-refl n)
        | inr (y, e') ↦ elim (Bool-cases (has b x.connected_peers)) [
          | inl c ↦ simp (s, e, e', c) (SameTraffic-refl n)
          | inr c ↦
              simp (s, e, e', c)
                (record {
                  same_arrivals = refl;
                  same_sequence = refl;
                  same_flight = refl;
                  same_channels = refl;
                })
        ]
      ]
    ]
  ]

  pub connect_peers-Flows : (n : LocalNetwork g) (a b : ℕ) → Flows n → Flows (connect_peers n a b).0
  connect_peers-Flows n a b h = SameTraffic-Flows n _ (connect_peers-SameTraffic n a b) h

  connect_row-Flows :
      (n : LocalNetwork g) (i : ℕ) (js : List ℕ) → Flows n → Flows (connect_row n i js)
  unfolding connect_row
  connect_row-Flows n i [] h = h
  connect_row-Flows n i (j ∷ js) h = elim (Bool-cases (is_peer_connected n i j)) [
    | inl c ↦ rw (c, connect_row) (connect_row-Flows n i js h)
    | inr c ↦
        rw (c, connect_row)
          (connect_row-Flows (connect_peers n i j).0 i js (connect_peers-Flows n i j h))
  ]

  connect_rows-Flows : (n : LocalNetwork g) (is : List ℕ) → Flows n → Flows (connect_rows n is)
  unfolding connect_rows
  connect_rows-Flows n [] h = h
  connect_rows-Flows n (i ∷ is) h =
      connect_rows-Flows (connect_row n i is) is (connect_row-Flows n i is h)

  pub connect_all-Flows : (n : LocalNetwork g) → Flows n → Flows (connect_all n)
  unfolding connect_all
  connect_all-Flows n h = connect_rows-Flows n (attached_ids n.endpoints) h
