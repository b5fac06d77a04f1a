-- ===== src/LocalNetwork/Linking.antt =====
-- `TickLocalNetwork`: the calls that link and unlink peers keep the links.
use tick_synchronizer.Prelude.{
  ℕ, ◌≡◌, ◌⊎◌, refl, ap, ◌∙◌, true, false, not, ◌&&◌, ◌||◌, none, some, Option-cases, Bool-cases,
  List, [], ◌∷◌, inl, inr, arith, ◌==◌,
}
use tick_synchronizer.Prelude.Maps.{lookup, has}
use tick_synchronizer.LocalNetwork.{
  Engine, Endpoint, LocalNetwork, get_peer, is_peer_connected, connect_peers, disconnect_peers,
  add_peer, remove_peer, connect_all, connect_row, connect_rows, disconnect_each,
  drop_in_flight_between, attached_ids,
}
use tick_synchronizer.LocalNetwork.Links.{
  connected, attached, attached_of, connected_of, IsLinked, link-IsLinked, connected_unlink,
  unlink-IsLinked, insert-IsLinked, leave-IsLinked,
}

module _ {g : Engine} where
  abbrev pub Linked : LocalNetwork g → Type 0
  Linked n = IsLinked n.endpoints n.next_peer_id

  -- `get_peer` finds the endpoints that belong to the network.
  pub get_peer-cases :
      (n : LocalNetwork g) (a : ℕ)
      → ((get_peer n a ≡ none) × (attached n.endpoints a ≡ false))
        ⊎ ((e : Endpoint) × (get_peer n a ≡ some e)
            × (lookup a n.endpoints ≡ some e)
            × (e.attached ≡ true))
  unfolding get_peer
  get_peer-cases n a = elim (Option-cases (lookup a n.endpoints)) [
    | inl e ↦ inl (rw (e, get_peer) refl, ap attached_of e)
    | inr (x, e) ↦ elim (Bool-cases x.attached) [
      | inl t ↦ inr (x, rw (e, get_peer) (ground arith), e, t)
      | inr t ↦ inl (rw (e, get_peer) (ground arith), ap attached_of e ∙ t)
    ]
  ]

  pub connect_peers-Linked :
      (n : LocalNetwork g) (a b : ℕ) → Linked n → Linked (connect_peers n a b).0
  unfolding connect_peers
  connect_peers-Linked n a b h = elim (Bool-cases (a == b)) [
    | inl s ↦ simp s h
    | inr s ↦ elim (get_peer-cases n a) [
      | inl (e, _) ↦ simp (s, e) h
      | inr (x, e, f, t) ↦ elim (get_peer-cases n b) [
        | inl (e', _) ↦ simp (s, e, e') h
        | inr (y, e', f', t') ↦ elim (Bool-cases (has b x.connected_peers)) [
          | inl c ↦ simp (s, e, e', c) h
          | inr c ↦
              simp (s, e, e', c)
                (link-IsLinked a b n.endpoints n.next_peer_id (ground arith) (ap attached_of f ∙ t)
                  (ap attached_of f' ∙ t') h)
        ]
      ]
    ]
  ]

  -- Unlinking, as the links show it.
  pub record Unlinks (n : LocalNetwork g) (a b : ℕ) (m : LocalNetwork g) : Type 0 where
    pub linked : Linked m
    pub links :
        (x y : ℕ)
        → connected m.endpoints x y
          ≡ (connected n.endpoints x y && not (a == x && b == y || b == x && a == y))

  pub Unlinks-refl :
      (n : LocalNetwork g) (a b : ℕ)
      → Linked n
      → connected n.endpoints a b ≡ false
      → Unlinks n a b n
  Unlinks-refl n a b h e = record { linked = h; links = λ x y. ground (arith, h.symmetric a b) }

  -- On a network whose links are symmetric and between different peers that belong to it,
  -- unlinking any two numbers removes the link between them in both directions and no other link,
  -- also where one is not a peer or they were not linked, and keeps the links so.
  pub disconnect_peers-Unlinks :
      (n : LocalNetwork g) (a b : ℕ) → Linked n → Unlinks n a b (disconnect_peers n a b)
  unfolding disconnect_peers drop_in_flight_between
  disconnect_peers-Unlinks n a b h = elim (get_peer-cases n a) [
    | inl (e, t) ↦ rw (e, disconnect_peers) (Unlinks-refl n a b h (ground (arith, h.live a b)))
    | inr (x, e, f, t) ↦ elim (get_peer-cases n b) [
      | inl (e', t') ↦
          rw (e, disconnect_peers, e')
            (Unlinks-refl n a b h (h.symmetric a b ∙ ground (arith, h.live b a)))
      | inr (y, e', f', t') ↦ elim (Bool-cases (has b x.connected_peers)) [
        | inr c ↦
            rw (e, disconnect_peers, e', c)
              (Unlinks-refl n a b h (ap (λ o. connected_of o b) f ∙ c))
        | inl c ↦
            rw (e, disconnect_peers, e', c)
              (record {
                linked = unlink-IsLinked a b n.endpoints n.next_peer_id h;
                links = connected_unlink a b n.endpoints;
              })
      ]
    ]
  ]

  -- The loop of `remove_peer` unlinks all the peers it is given.
  pub disconnect_each-links :
      (n : LocalNetwork g) (p : ℕ) (qs : List ℕ)
      → Linked n
      → Linked (disconnect_each n p qs)
        × ((y : ℕ)
            → connected (disconnect_each n p qs).endpoints p y
              ≡ (connected n.endpoints p y && not (has y qs)))
  unfolding disconnect_each has
  disconnect_each-links n p [] h = (h, λ y. ground arith)
  disconnect_each-links n p (q ∷ qs) h =
      let u = disconnect_peers-Unlinks n p q h in
      let r = disconnect_each-links (disconnect_peers n p q) p qs u.linked in
      (r.0, λ y. r.1 y ∙ ground (arith, u.links p y, h.apart p))

  pub remove_peer-Linked : (n : LocalNetwork g) (p : ℕ) → Linked n → Linked (remove_peer n p)
  unfolding remove_peer
  remove_peer-Linked n p h = elim (get_peer-cases n p) [
    | inl (e, t) ↦ rw (e, remove_peer) h
    | inr (x, e, f, t) ↦
        let m = disconnect_each n p x.connected_peers in
        let r = disconnect_each-links n p x.connected_peers h in
        rw (e, remove_peer)
          (leave-IsLinked p m.endpoints m.next_peer_id
            (λ b. r.1 b ∙ ground (arith, ap (λ o. connected_of o b) f)) r.0)
  ]

  pub connect_row-Linked :
      (n : LocalNetwork g) (i : ℕ) (js : List ℕ) → Linked n → Linked (connect_row n i js)
  unfolding connect_row
  connect_row-Linked n i [] h = h
  connect_row-Linked n i (j ∷ js) h = elim (Bool-cases (is_peer_connected n i j)) [
    | inl c ↦ rw (c, connect_row) (connect_row-Linked n i js h)
    | inr c ↦
        rw (c, connect_row)
          (connect_row-Linked (connect_peers n i j).0 i js (connect_peers-Linked n i j h))
  ]

  pub connect_rows-Linked :
      (n : LocalNetwork g) (is : List ℕ) → Linked n → Linked (connect_rows n is)
  unfolding connect_rows
  connect_rows-Linked n [] h = h
  connect_rows-Linked n (i ∷ is) h =
      connect_rows-Linked (connect_row n i is) is (connect_row-Linked n i is h)

  pub connect_all-Linked : (n : LocalNetwork g) → Linked n → Linked (connect_all n)
  unfolding connect_all
  connect_all-Linked n h = connect_rows-Linked n (attached_ids n.endpoints) h

  pub add_peer-Linked : (n : LocalNetwork g) → Linked n → Linked (add_peer n).0
  unfolding add_peer
  add_peer-Linked n h = insert-IsLinked n.endpoints n.next_peer_id h
