-- ===== src/LocalNetwork/Order.antt =====
-- The reliable packets of `TickLocalNetwork`: those of one link are delivered in the order they were
-- sent.
use tick_synchronizer.Prelude.{
  ℕ, zero, suc, ◌+◌, ◌≤◌, ◌<◌, ◌≡◌, ◌≢◌, refl, sym, ap, ◌∙◌, Bool, true, some, Bool-cases, List, [],
  ◌∷◌, ◌++◌, filter, All, All-append, All-weaken, All-both, All-filter, inl, inr, arith, ◌==◌,
  if◌then◌else◌,
}
use tick_synchronizer.Prelude.Maps.{Map, lookup, insert, erase, lookup-insert, lookup-erase}
use tick_synchronizer.Transport.{TransferMode, is_reliable}
use tick_synchronizer.LocalNetwork.{InFlightPacket, Engine, make_link_key, forget_channels}
use tick_synchronizer.LocalNetwork.Traffic.{in_order}

-- The link of a packet.
abbrev pub key_of : InFlightPacket → ℕ
key_of p = make_link_key p.packet.from_peer p.to_peer p.packet.channel

-- Two reliable packets of one link: the one that was sent first does not arrive later.
unfoldable pub Ordered : InFlightPacket → InFlightPacket → Type 0
Ordered p q =
    is_reliable p.packet.mode ≡ true
    → is_reliable q.packet.mode ≡ true
    → key_of p ≡ key_of q
    → p.sequence < q.sequence
    → p.deliver_at_usec ≤ q.deliver_at_usec

-- The last arrival of a link is not before the packet's.
unfoldable pub Covered : Map ℕ → InFlightPacket → Type 0
Covered m p =
    is_reliable p.packet.mode ≡ true
    → (t : ℕ) × (lookup (key_of p) m ≡ some t) × (p.deliver_at_usec ≤ t)

-- The ids and the channel of a packet, and its sequence.
pub record InBounds (next_id next_sequence : ℕ) (p : InFlightPacket) : Type 0 where
  pub from_bound : p.packet.from_peer < next_id
  pub to_bound : p.to_peer < next_id
  pub channel_bound : p.packet.channel < 255
  pub sequence_bound : p.sequence < next_sequence

pub record InOrder (m : Map ℕ) (next_id next_sequence : ℕ) (ps : List InFlightPacket) : Type 0 where
  pub bounds : All (InBounds next_id next_sequence) ps
  pub covered : All (Covered m) ps
  pub ordered : All (λ p. All (Ordered p) ps) ps

-- The newest packet of a link, which arrives no earlier than the last.
pub launch-InOrder :
    (m m' : Map ℕ) (next_id next : ℕ) (ps : List InFlightPacket) (q : InFlightPacket)
    → q.sequence ≡ next
    → InBounds next_id (next + 1) q
    → Covered m' q
    → ((p : InFlightPacket) → Covered m p → Covered m' p)
    → ((p : InFlightPacket)
        → is_reliable q.packet.mode ≡ true
        → key_of p ≡ key_of q
        → Covered m p
        → is_reliable p.packet.mode ≡ true
        → p.deliver_at_usec ≤ q.deliver_at_usec)
    → InOrder m next_id next ps
    → InOrder m' next_id (next + 1) (ps ++ q ∷ [])
unfolding Ordered Covered
launch-InOrder m m' next_id next ps q e b c keep after h = record {
  bounds =
      All-append (InBounds next_id (next + 1)) ps (q ∷ [])
        (All-weaken (InBounds next_id next) (InBounds next_id (next + 1)) ps
          (λ p w. record {
            from_bound = w.from_bound;
            to_bound = w.to_bound;
            channel_bound = w.channel_bound;
            sequence_bound = omega (arith, w.sequence_bound);
          })
          h.bounds)
        (b, tt);
  covered =
      All-append (Covered m') ps (q ∷ []) (All-weaken (Covered m) (Covered m') ps keep h.covered)
        (c, tt);
  ordered =
      All-append (λ p. All (Ordered p) (ps ++ q ∷ [])) ps (q ∷ [])
        (All-weaken (λ p. All (Ordered p) ps × Covered m p) (λ p. All (Ordered p) (ps ++ q ∷ [])) ps
          (λ p o. All-append (Ordered p) ps (q ∷ []) o.0 ((λ r r' k l. after p r' k o.1 r), tt))
          (All-both (λ p. All (Ordered p) ps) (Covered m) ps h.ordered h.covered))
        (
          All-append (Ordered q) ps (q ∷ [])
              (All-weaken (InBounds next_id next) (Ordered q) ps
                (λ p w r r' k l. absurd (omega (arith, w.sequence_bound))) h.bounds)
              ((λ r r' k l. absurd (omega arith)), tt),
          tt,
        );
}

-- Packets that were in order are so after some of them are gone, if the others keep their arrival.
pub filter-InOrder :
    (m m' : Map ℕ) (next_id next : ℕ) (f : InFlightPacket → Bool) (ps : List InFlightPacket)
    → ((p : InFlightPacket)
        → InBounds next_id next p
        → f p ≡ true
        → lookup (key_of p) m' ≡ lookup (key_of p) m)
    → InOrder m next_id next ps
    → InOrder m' next_id next (filter f ps)
unfolding Covered
filter-InOrder m m' next_id next f ps keep h = record {
  bounds = All-filter (InBounds next_id next) f ps h.bounds;
  covered = covers ps h.bounds h.covered;
  ordered =
      All-filter (λ p. All (Ordered p) (filter f ps)) f ps
        (All-weaken (λ p. All (Ordered p) ps) (λ p. All (Ordered p) (filter f ps)) ps
          (λ p o. All-filter (Ordered p) f ps o) h.ordered);
}
  where
    covers :
        (ps : List InFlightPacket)
        → All (InBounds next_id next) ps
        → All (Covered m) ps
        → All (Covered m') (filter f ps)
    covers [] b c = tt
    covers (p ∷ ps) b c = elim (Bool-cases (f p)) [
      | inl e ↦
          rw e ((λ r. (let (t, u, u') = c.0 r in (t, keep p b.0 e ∙ u, u'))), covers ps b.1 c.1)
      | inr e ↦ rw e (covers ps b.1 c.1)
    ]

-- The rounds of `drop_in_flight_between` leave the keys of other links alone.
pub lookup-forget_channels :
    (rounds channel a b k : ℕ) (m : Map ℕ)
    → ((c : ℕ) → c < channel + rounds → make_link_key a b c ≢ k)
    → ((c : ℕ) → c < channel + rounds → make_link_key b a c ≢ k)
    → lookup k (forget_channels rounds channel a b m) ≡ lookup k m
unfolding forget_channels
lookup-forget_channels zero channel a b k m h h' = refl
lookup-forget_channels (suc rounds) channel a b k m h h' =
    let m' = erase (make_link_key a b channel) m in
    lookup-forget_channels rounds (channel + 1) a b k (erase (make_link_key b a channel) m')
      (λ c l. h c (omega arith)) (λ c l. h' c (omega arith))
    ∙ ground (
      arith,
      lookup-erase k (make_link_key b a channel) m',
      lookup-erase k (make_link_key a b channel) m,
      h channel (omega arith),
      h' channel (omega arith),
    )

-- The packet that `launch` makes.
abbrev pub launched : ℕ → ℕ → ℕ → ℕ → ℕ → TransferMode → List ℕ → InFlightPacket
launched at next from to channel mode bytes = record {
  deliver_at_usec = at;
  sequence = next;
  to_peer = to;
  packet = record { from_peer = from; channel = channel; mode = mode; bytes = bytes };
}

in_order_max : (m : Map ℕ) (k at t : ℕ) → lookup k m ≡ some t → t ≤ in_order (lookup k m) at
unfolding in_order
in_order_max m k at t e = rw e (omega arith)

-- A later arrival of a link covers what the earlier one did.
insert-Covered :
    (m : Map ℕ) (k at : ℕ) (p : InFlightPacket)
    → ((t : ℕ) → lookup k m ≡ some t → t ≤ at)
    → Covered m p
    → Covered (insert k at m) p
unfolding Covered
insert-Covered m k at p later c r =
    let (t, e, l) = c r in
    elim (Bool-cases (k == key_of p)) [
      | inl s ↦
          let same : k ≡ key_of p = ground arith in
          let bigger = later t (ap (λ j. lookup j m) same ∙ e) in
          (at, lookup-insert (key_of p) k at m ∙ ground (arith, s), omega (arith, bigger))
      | inr s ↦ (t, lookup-insert (key_of p) k at m ∙ ground (arith, s, e), l)
    ]

pub launched-InOrder :
    (m : Map ℕ) (next_id next : ℕ) (ps : List InFlightPacket) (from to channel arrival : ℕ)
    (mode : TransferMode) (bytes : List ℕ)
    → from < next_id
    → to < next_id
    → channel < 255
    → InOrder m next_id next ps
    → let key = make_link_key from to channel in
      let at = if is_reliable mode then in_order (lookup key m) arrival else arrival in
      InOrder
        (if is_reliable mode then insert key at m else m)
        next_id
        (next + 1)
        (ps ++ launched at next from to channel mode bytes ∷ [])
unfolding Covered
launched-InOrder m next_id next ps from to channel arrival mode bytes a b c h =
    elim (Bool-cases (is_reliable mode)) [
      | inl e ↦
          let key = make_link_key from to channel in
          let at = in_order (lookup key m) arrival in
          rw e (
            launch-InOrder m (insert key at m) next_id next ps
              (launched at next from to channel mode bytes) refl
              (record {
                from_bound = a;
                to_bound = b;
                channel_bound = c;
                sequence_bound = omega arith;
              })
              (λ r. (at, lookup-insert key key at m ∙ ground arith, omega arith))
              (λ p k. insert-Covered m key at p (λ t u. in_order_max m key arrival t u) k)
              (λ p r k d r'.
                (let (t, u, l) = d r' in
                  let bound = in_order_max m key arrival t (ap (λ j. lookup j m) (sym k) ∙ u) in
                  omega (arith, bound)))
              h)
      | inr e ↦ rw e (
          launch-InOrder m m next_id next ps (launched arrival next from to channel mode bytes) refl
            (record {
              from_bound = a;
              to_bound = b;
              channel_bound = c;
              sequence_bound = omega arith;
            })
            (λ r. absurd (ground (arith, e, r))) (λ p k. k)
            (λ p r k d r'. absurd (ground (arith, e, r))) h)
    ]

pub nil-InOrder : (m : Map ℕ) (next_id next : ℕ) → InOrder m next_id next []
nil-InOrder m next_id next = record { bounds = tt; covered = tt; ordered = tt }

pub tail-InOrder :
    (m : Map ℕ) (next_id next : ℕ) (p : InFlightPacket) (ps : List InFlightPacket)
    → InOrder m next_id next (p ∷ ps)
    → InOrder m next_id next ps
tail-InOrder m next_id next p ps h = record {
  bounds = h.bounds.1;
  covered = h.covered.1;
  ordered =
      All-weaken (λ q. All (Ordered q) (p ∷ ps)) (λ q. All (Ordered q) ps) ps (λ q o. o.1)
        h.ordered.1;
}

pub sort-InOrder :
    (g : Engine) (m : Map ℕ) (next_id next : ℕ) (ps : List InFlightPacket)
    → InOrder m next_id next ps
    → InOrder m next_id next (g.sort ps)
sort-InOrder g m next_id next ps h = record {
  bounds = g.sort_all (InBounds next_id next) ps h.bounds;
  covered = g.sort_all (Covered m) ps h.covered;
  ordered =
      g.sort_all (λ p. All (Ordered p) (g.sort ps)) ps
        (All-weaken (λ p. All (Ordered p) ps) (λ p. All (Ordered p) (g.sort ps)) ps
          (λ p o. g.sort_all (Ordered p) ps o) h.ordered);
}
