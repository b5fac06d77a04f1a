-- ===== src/LocalNetwork/Calls.antt =====
-- Any sequence of calls on a `TickLocalNetwork`, and what it keeps of the links.
use tick_synchronizer.Prelude.{ℕ, refl, Option-cases, List, [], ◌∷◌, get_elem?, inl, inr}
use tick_synchronizer.Prelude.Int.{ℤ}
use tick_synchronizer.Prelude.Maps.{lookup}
use tick_synchronizer.Transport.{TransferMode}
use tick_synchronizer.LocalNetwork.{
  Engine, LocalNetwork, initial_network, update_endpoint, connect_peers, disconnect_peers, add_peer,
  remove_peer, connect_all, set_channel_count, set_packet_loss, set_link_latency_usec, set_seed,
}
use tick_synchronizer.LocalNetwork.Traffic.{
  transport_send, disconnect_peer, process_usec, process, pop_event, pop_packet,
}
use tick_synchronizer.LocalNetwork.Links.{IsLinked, KeepsLinks}
use tick_synchronizer.LocalNetwork.Linking.{
  Linked, connect_peers-Linked, disconnect_peers-Unlinks, remove_peer-Linked, connect_all-Linked,
  add_peer-Linked,
}
use tick_synchronizer.LocalNetwork.Moving.{
  SameEndpoints-Linked, transport_send-Linked, disconnect_peer-Linked, process_usec-Linked,
  process-Linked, set_channel_count-SameEndpoints, set_packet_loss-SameEndpoints, transfer-Linked,
}

pop_event-KeepsLinks : KeepsLinks (λ e. (pop_event e).0)
unfolding pop_event
pop_event-KeepsLinks e = elim (Option-cases (get_elem? e.events e.next_event)) [
  | inl h ↦ rw (h, pop_event) (refl, refl)
  | inr (x, h) ↦ rw (h, pop_event) (refl, refl)
]

pop_packet-KeepsLinks : KeepsLinks (λ e. (pop_packet e).0)
unfolding pop_packet
pop_packet-KeepsLinks e = elim (Option-cases (get_elem? e.inbox e.next_packet)) [
  | inl h ↦ rw (h, pop_packet) (refl, refl)
  | inr (x, h) ↦ rw (h, pop_packet) (refl, refl)
]

-- The calls that a program makes on the network and on the endpoints it holds, while it exists.
pub data NetworkCall (g : Engine) : Type 0 where
  adds connects_all : NetworkCall g
  removes : ℕ → NetworkCall g
  connects disconnects asks_disconnect : ℕ → ℕ → NetworkCall g
  sends : ℕ → ℤ → ℤ → TransferMode → List ℕ → NetworkCall g
  processes : g.Real → NetworkCall g
  processes_usec : ℕ → NetworkCall g
  pops_event pops_packet : ℕ → NetworkCall g
  sets_channel_count : ℤ → NetworkCall g
  sets_max_payload_size sets_latency_usec sets_jitter_usec sets_seed : ℕ → NetworkCall g
  sets_packet_loss : g.Real → NetworkCall g
  sets_link_latency_usec : ℕ → ℕ → ℕ → NetworkCall g

pub initial-Linked : (g : Engine) → Linked (initial_network {g = g})
unfolding initial_network lookup
initial-Linked g = record {
  symmetric = λ a b. refl;
  apart = λ a. refl;
  live = λ a b. inl refl;
  fresh = λ a. inl refl;
}

module _ {g : Engine} where
  unfoldable pub call : LocalNetwork g → NetworkCall g → LocalNetwork g
  unfolding add_peer remove_peer connect_peers disconnect_peers connect_all disconnect_peer
      transport_send process process_usec pop_event pop_packet update_endpoint set_channel_count
      set_packet_loss set_link_latency_usec set_seed
  call n adds = (add_peer n).0
  call n connects_all = connect_all n
  call n (removes p) = remove_peer n p
  call n (connects a b) = (connect_peers n a b).0
  call n (disconnects a b) = disconnect_peers n a b
  call n (asks_disconnect p other) = disconnect_peer n p other
  call n (sends from target channel mode bytes) =
      (transport_send n from target channel mode bytes).0
  call n (processes delta) = process n delta
  call n (processes_usec delta) = process_usec n delta
  call n (pops_event p) = record n {
    endpoints = update_endpoint p (λ e. (pop_event e).0) n.endpoints;
  }
  call n (pops_packet p) = record n {
    endpoints = update_endpoint p (λ e. (pop_packet e).0) n.endpoints;
  }
  call n (sets_channel_count count) = set_channel_count n count
  call n (sets_max_payload_size size) = record n { max_payload_size = size }
  call n (sets_latency_usec latency) = record n { latency_usec = latency }
  call n (sets_jitter_usec jitter) = record n { jitter_usec = jitter }
  call n (sets_seed seed) = set_seed n seed
  call n (sets_packet_loss loss) = set_packet_loss n loss
  call n (sets_link_latency_usec a b latency) = set_link_latency_usec n a b latency

  unfoldable pub calls : LocalNetwork g → List (NetworkCall g) → LocalNetwork g
  unfolding call
  calls n [] = n
  calls n (c ∷ cs) = calls (call n c) cs

  pub call-Linked : (n : LocalNetwork g) (c : NetworkCall g) → Linked n → Linked (call n c)
  unfolding call
  call-Linked n adds h = add_peer-Linked n h
  call-Linked n connects_all h = connect_all-Linked n h
  call-Linked n (removes p) h = remove_peer-Linked n p h
  call-Linked n (connects a b) h = connect_peers-Linked n a b h
  call-Linked n (disconnects a b) h = (disconnect_peers-Unlinks n a b h).linked
  call-Linked n (asks_disconnect p other) h = disconnect_peer-Linked n p other h
  call-Linked n (sends from target channel mode bytes) h =
      transport_send-Linked n from target channel mode bytes h
  call-Linked n (processes delta) h = process-Linked n delta h
  call-Linked n (processes_usec delta) h = process_usec-Linked n delta h
  call-Linked n (pops_event p) h = transfer-Linked n p (λ e. (pop_event e).0) pop_event-KeepsLinks h
  call-Linked n (pops_packet p) h =
      transfer-Linked n p (λ e. (pop_packet e).0) pop_packet-KeepsLinks h
  call-Linked n (sets_channel_count count) h =
      SameEndpoints-Linked n _ (set_channel_count-SameEndpoints n count) h
  call-Linked n (sets_max_payload_size size) h = h
  call-Linked n (sets_latency_usec latency) h = h
  call-Linked n (sets_jitter_usec jitter) h = h
  call-Linked n (sets_seed seed) h = unfold set_seed in h
  call-Linked n (sets_packet_loss loss) h =
      SameEndpoints-Linked n _ (set_packet_loss-SameEndpoints n loss) h
  call-Linked n (sets_link_latency_usec a b latency) h = unfold set_link_latency_usec in h

  calls-Linked : (n : LocalNetwork g) (cs : List (NetworkCall g)) → Linked n → Linked (calls n cs)
  unfolding calls
  calls-Linked n [] h = h
  calls-Linked n (c ∷ cs) h = calls-Linked (call n c) cs (call-Linked n c h)

  -- After any calls on a new network and its endpoints: a peer is linked to another just when that
  -- one is linked to it, no peer is linked to itself, only peers that belong to the network are
  -- linked, and no endpoint has an id that was not given yet.
  pub calls-IsLinked :
      (cs : List (NetworkCall g))
      → IsLinked (calls initial_network cs).endpoints (calls initial_network cs).next_peer_id
  calls-IsLinked cs = calls-Linked initial_network cs (initial-Linked g)
