-- ===== src/Examples/Networks.antt =====
-- `TickLocalNetwork` on a concrete run.
use tick_synchronizer.Prelude.{
  ℕ, ◌+◌, ◌*◌, ◌%◌, ◌^◌, ◌≤◌, ◌<◌, ◌≡◌, true, false, List, [], ◌∷◌, All, All-weaken, Pairwise,
  Bool-cases, inl, inr, arith, ltb, leb, if◌then◌else◌,
}
use tick_synchronizer.Prelude.Int.{pos}
use tick_synchronizer.Transport.{reliable, unreliable_ordered, is_reliable}
use tick_synchronizer.LocalNetwork.{
  InFlightPacket, Engine, earlier, initial_network, make_link_key, disconnect_peers, add_peer,
  connect_all, connect_rows, connect_row, connect_peers, is_peer_connected, get_peer,
  update_endpoint, linked_to,
}
use tick_synchronizer.LocalNetwork.Links.{IsLinked}
use tick_synchronizer.LocalNetwork.Linking.{Unlinks, disconnect_peers-Unlinks}
use tick_synchronizer.LocalNetwork.Calls.{
  NetworkCall, adds, connects_all, sends, sets_latency_usec, call, calls, calls-IsLinked,
}
use tick_synchronizer.LocalNetwork.Order.{key_of}
use tick_synchronizer.LocalNetwork.Deliveries.{most_sent}
use tick_synchronizer.LocalNetwork.Traffic.{
  transport_send, send_each, send, draw_loss, launch, draw_delay, latency_of, in_order,
  process_usec,
}
use tick_synchronizer.Prelude.Maps.{lookup, insert, has, include}
use tick_synchronizer.LocalNetwork.Due.{process_usec_due}
use tick_synchronizer.LocalNetwork.InOrder.{HasRoom, calls-in_order}

-- An insertion sort by `earlier`.
abbrev place : InFlightPacket → List InFlightPacket → List InFlightPacket
place p [] = p ∷ []
place p (q ∷ qs) = let later = q ∷ place p qs in if earlier p q then p ∷ q ∷ qs else later

abbrev arrange : List InFlightPacket → List InFlightPacket
arrange [] = []
arrange (p ∷ ps) = place p (arrange ps)

place-All :
    (P : InFlightPacket → Type 0) (p : InFlightPacket) (qs : List InFlightPacket)
    → P p
    → All P qs
    → All P (place p qs)
place-All P p [] h k = (h, tt)
place-All P p (q ∷ qs) h k = elim (Bool-cases (earlier p q)) [
  | inl e ↦ rw e (h, k)
  | inr e ↦ rw e (k.0, place-All P p qs h k.1)
]

pub arrange-All :
    (P : InFlightPacket → Type 0) (ps : List InFlightPacket) → All P ps → All P (arrange ps)
arrange-All P [] h = tt
arrange-All P (p ∷ ps) h = place-All P p (arrange ps) h.0 (arrange-All P ps h.1)

earlier_later :
    (p q r : InFlightPacket) → earlier p q ≡ true → earlier r q ≡ false → earlier r p ≡ false
unfolding earlier
earlier_later p q r e h = ground (arith, e, h)

earlier_asym : (p q : InFlightPacket) → earlier p q ≡ true → earlier q p ≡ false
unfolding earlier
earlier_asym p q e = ground (arith, e)

place-sorted :
    (p : InFlightPacket) (qs : List InFlightPacket)
    → Pairwise (λ p q. earlier q p ≡ false) qs
    → Pairwise (λ p q. earlier q p ≡ false) (place p qs)
place-sorted p [] h = (tt, tt)
place-sorted p (q ∷ qs) h = elim (Bool-cases (earlier p q)) [
  | inl e ↦ rw e (
    (
      earlier_asym p q e,
      All-weaken (λ r. earlier r q ≡ false) (λ r. earlier r p ≡ false) qs
          (λ r k. earlier_later p q r e k) h.0,
    ),
    h,
  )
  | inr e ↦ rw e (place-All (λ r. earlier r q ≡ false) p qs e h.0, place-sorted p qs h.1)
]

pub arrange-sorted : (ps : List InFlightPacket) → Pairwise (λ p q. earlier q p ≡ false) (arrange ps)
arrange-sorted [] = tt
arrange-sorted (p ∷ ps) = place-sorted p (arrange ps) (arrange-sorted ps)

abbrev pub whole_numbers : Engine
whole_numbers = record {
  Rng = ℕ;
  Real = ℕ;
  seed = λ s. s;
  rand = λ r. (r + 1, r * 7 % 5);
  randf = λ r. (r + 1, r % 2);
  nought = 0;
  one = 1;
  real_lt = λ x y. ltb x y;
  real_le = λ x y. leb x y;
  usec_of_seconds = λ x. x * 1000000;
  sort = arrange;
  sorted = arrange-sorted;
  sort_all = arrange-All;
}

-- Two peers; the latency falls between two reliable packets.
abbrev run : List (NetworkCall whole_numbers)
run =
    adds
    ∷ adds
    ∷ connects_all
    ∷ sets_latency_usec 50
    ∷ sends 1 (pos 2) (pos 0) reliable (7 ∷ [])
    ∷ sets_latency_usec 10
    ∷ sends 1 (pos 0) (pos 0) reliable (8 ∷ [])
    ∷ sends 2 (pos 1) (pos 3) unreliable_ordered (9 ∷ [])
    ∷ []

calls-IsLinked_example :
    IsLinked
      (calls (initial_network {g = whole_numbers}) run).endpoints
      (calls (initial_network {g = whole_numbers}) run).next_peer_id
calls-IsLinked_example = calls-IsLinked run

run-HasRoom : HasRoom (initial_network {g = whole_numbers}) run
unfolding initial_network call most_sent lookup insert has include add_peer connect_all connect_rows
    connect_row connect_peers is_peer_connected get_peer update_endpoint linked_to transport_send
    send_each send draw_loss launch draw_delay latency_of in_order make_link_key
run-HasRoom = (
  omega arith,
  omega arith,
  (
    omega arith,
    omega arith,
    (
      omega arith,
      omega arith,
      (
        omega arith,
        omega arith,
        (
          omega arith,
          omega arith,
          (omega arith, omega arith, (omega arith, omega arith, (omega arith, omega arith, tt))),
        ),
      ),
    ),
  ),
)

calls-in_order_example :
    Pairwise
      (λ p q.
        is_reliable p.packet.mode ≡ true
        → is_reliable q.packet.mode ≡ true
        → key_of p ≡ key_of q
        → p.sequence ≤ q.sequence)
      (arrange (calls (initial_network {g = whole_numbers}) run).in_flight)
calls-in_order_example = calls-in_order run run-HasRoom

disconnect_peers-Unlinks_example :
    Unlinks
      (calls (initial_network {g = whole_numbers}) run)
      1
      2
      (disconnect_peers (calls (initial_network {g = whole_numbers}) run) 1 2)
disconnect_peers-Unlinks_example =
    disconnect_peers-Unlinks (calls initial_network run) 1 2 (calls-IsLinked run)

process_usec_due_example :
    All
      (λ p.
        ((calls (initial_network {g = whole_numbers}) run).time_usec + 20) % 2 ^ 64
        < p.deliver_at_usec)
      (process_usec (calls (initial_network {g = whole_numbers}) run) 20).in_flight
    × ((process_usec (calls (initial_network {g = whole_numbers}) run) 20).time_usec
        ≡ ((calls (initial_network {g = whole_numbers}) run).time_usec + 20) % 2 ^ 64)
process_usec_due_example = process_usec_due (calls initial_network run) 20
