-- ===== src/LocalNetwork/Due.antt =====
-- `TickLocalNetwork::process_usec`: what is due is not left in flight.
use tick_synchronizer.Prelude.{
  ℕ, ◌+◌, ◌%◌, ◌^◌, ◌≤◌, ◌<◌, ◌≡◌, refl, sym, ◌∙◌, false, Option-cases, Bool-cases, List, [], ◌∷◌,
  length, nil_of_length, All, All-weaken, Pairwise, inl, inr, arith, ltb, leb, ◌==◌, subst,
}
use tick_synchronizer.Prelude.Maps.{lookup, has}
use tick_synchronizer.Transport.{is_ordered}
use tick_synchronizer.LocalNetwork.{
  InFlightPacket, Engine, LocalNetwork, earlier, make_link_key, get_peer,
}
use tick_synchronizer.LocalNetwork.Traffic.{
  hand_over, hand_over_newer, deliver, deliver_loop, process_usec,
}

not_earlier : (p q : InFlightPacket) → earlier q p ≡ false → p.deliver_at_usec ≤ q.deliver_at_usec
unfolding earlier
not_earlier p q e = ground (arith, e)

module _ {g : Engine} where
  hand_over_newer-same_time :
      (n : LocalNetwork g) (p : InFlightPacket) → (hand_over_newer n p).time_usec ≡ n.time_usec
  unfolding hand_over_newer hand_over
  hand_over_newer-same_time n p =
      let key = make_link_key p.packet.from_peer p.to_peer p.packet.channel in
      elim (Option-cases (lookup key n.last_ordered_sequence)) [
        | inl e ↦ rw (e, hand_over_newer) refl
        | inr (last, e) ↦ elim (Bool-cases (ltb p.sequence last)) [
          | inl c ↦ rw (e, hand_over_newer, c) refl
          | inr c ↦ rw (e, hand_over_newer, c) refl
        ]
      ]

  deliver-same_time :
      (n : LocalNetwork g) (p : InFlightPacket) → (deliver n p).time_usec ≡ n.time_usec
  unfolding deliver hand_over
  deliver-same_time n p = elim (Option-cases (get_peer n p.to_peer)) [
    | inl e ↦ rw (e, deliver) refl
    | inr (x, e) ↦
        rw (e, deliver)
          (elim (Bool-cases (has p.packet.from_peer x.connected_peers)) [
            | inr c ↦ rw c refl
            | inl c ↦ elim (Bool-cases (is_ordered p.packet.mode)) [
              | inl o ↦ rw (c, o) (hand_over_newer-same_time n p)
              | inr o ↦ rw (c, o) refl
            ]
          ])
  ]

  deliver_loop-due :
      (n : LocalNetwork g) (ps : List InFlightPacket)
      → Pairwise (λ p q. earlier q p ≡ false) ps
      → All (λ p. n.time_usec < p.deliver_at_usec) (deliver_loop n ps).in_flight
        × ((deliver_loop n ps).time_usec ≡ n.time_usec)
  unfolding deliver_loop
  deliver_loop-due n [] h = (tt, refl)
  deliver_loop-due n (p ∷ ps) h = elim (Bool-cases (leb p.deliver_at_usec n.time_usec)) [
    | inl e ↦
        let m = deliver n p in
        let same = deliver-same_time n p in
        let r = deliver_loop-due m ps h.1 in
        rw e (
          All-weaken (λ q. m.time_usec < q.deliver_at_usec) (λ q. n.time_usec < q.deliver_at_usec) _
              (λ q l. omega (arith, same, l)) r.0,
          r.1 ∙ same,
        )
    | inr e ↦
        let later : n.time_usec < p.deliver_at_usec = ground arith in
        rw e (
          (
            later,
            All-weaken (λ q. earlier q p ≡ false) (λ q. n.time_usec < q.deliver_at_usec) ps
                (λ q s. omega (arith, not_earlier p q s, later)) h.0,
          ),
          refl,
        )
  ]

  -- Whatever the state of a network, after `process_usec` by any time its clock has moved by that
  -- time, wrapping around at 2 ^ 64, and every packet left in flight arrives later than the clock
  -- shows.
  pub process_usec_due :
      (n : LocalNetwork g) (delta : ℕ)
      → All
          (λ p. (n.time_usec + delta) % 2 ^ 64 < p.deliver_at_usec)
          (process_usec n delta).in_flight
        × ((process_usec n delta).time_usec ≡ (n.time_usec + delta) % 2 ^ 64)
  unfolding process_usec
  process_usec_due n delta = elim (Bool-cases (length n.in_flight == 0)) [
    | inl e ↦
        let none_left : [] ≡ n.in_flight = sym (nil_of_length n.in_flight (ground arith)) in
        rw e (
          subst (λ ps. All (λ p. (n.time_usec + delta) % 2 ^ 64 < p.deliver_at_usec) ps) none_left
              tt,
          refl,
        )
    | inr e ↦ rw e (
        deliver_loop-due (record n { time_usec = (n.time_usec + delta) % 2 ^ 64 })
          (g.sort n.in_flight) (g.sorted n.in_flight))
  ]
