-- ===== src/LocalNetwork/Links.antt =====
-- The links of `TickLocalNetwork`: every call keeps them between two different peers of the network,
-- and the same from both ends.
use tick_synchronizer.Prelude.{
  ℕ, ◌+◌, ◌<◌, ◌≡◌, ◌≢◌, ◌⊎◌, refl, sym, ap, ◌∙◌, Bool, true, false, not, ◌&&◌, ◌||◌, Option, none,
  some, Option-cases, inl, inr, arith, ◌==◌, if◌then◌else◌,
}
use mathlib.Core.Option.{map}
use tick_synchronizer.Prelude.Maps.{
  Map, lookup, insert, lookup-insert, has, has-include, has-exclude,
}
use tick_synchronizer.LocalNetwork.{
  Endpoint, new_endpoint, linked_to, unlinked_from, update_endpoint,
}

abbrev pub connected_of : Option Endpoint → ℕ → Bool
connected_of none b = false
connected_of (some e) b = has b e.connected_peers

abbrev pub attached_of : Option Endpoint → Bool
attached_of none = false
attached_of (some e) = e.attached

abbrev pub present_of : Option Endpoint → Bool
present_of none = false
present_of (some e) = true

-- Whether an endpoint is linked to another, whether it belongs to the network, and whether there is
-- one.
abbrev pub connected : Map Endpoint → ℕ → ℕ → Bool
connected m a b = connected_of (lookup a m) b

abbrev pub attached : Map Endpoint → ℕ → Bool
attached m a = attached_of (lookup a m)

abbrev pub present : Map Endpoint → ℕ → Bool
present m a = present_of (lookup a m)

pub lookup-update :
    (p : ℕ) (f : Endpoint → Endpoint) (m : Map Endpoint) (a : ℕ)
    → lookup a (update_endpoint p f m) ≡ (if p == a then map f (lookup p m) else lookup a m)
unfolding update_endpoint
lookup-update p f m a = elim (Option-cases (lookup p m)) [
  | inl e ↦ rw (e, update_endpoint) (ground arith)
  | inr (x, e) ↦ rw (e, update_endpoint) (lookup-insert a p (f x) m)
]

-- What each change of an endpoint does to the links.
pub connected-linked :
    (p q : ℕ) (m : Map Endpoint) (a b : ℕ)
    → connected (update_endpoint p (linked_to q) m) a b
      ≡ (connected m a b || present m p && (p == a && q == b))
unfolding linked_to
connected-linked p q m a b =
    ap (λ o. connected_of o b) (lookup-update p (linked_to q) m a)
    ∙ (elim (Option-cases (lookup p m)) [
      | inl e ↦ rw e (ground arith)
      | inr (x, e) ↦ rw e (ground (arith, has-include b q x.connected_peers))
    ])

pub connected-unlinked :
    (p q : ℕ) (m : Map Endpoint) (a b : ℕ)
    → connected (update_endpoint p (unlinked_from q) m) a b
      ≡ (connected m a b && not (p == a && q == b))
unfolding unlinked_from
connected-unlinked p q m a b =
    ap (λ o. connected_of o b) (lookup-update p (unlinked_from q) m a)
    ∙ (elim (Option-cases (lookup p m)) [
      | inl e ↦ rw e (ground arith)
      | inr (x, e) ↦ rw e (ground (arith, has-exclude b q x.connected_peers))
    ])

-- A change that keeps the links and the network of an endpoint.
abbrev pub KeepsLinks : (Endpoint → Endpoint) → Type 0
KeepsLinks f =
    (e : Endpoint) → ((f e).connected_peers ≡ e.connected_peers) × ((f e).attached ≡ e.attached)

connected-update :
    (p : ℕ) (f : Endpoint → Endpoint) (m : Map Endpoint) (a b : ℕ)
    → KeepsLinks f
    → connected (update_endpoint p f m) a b ≡ connected m a b
connected-update p f m a b k =
    ap (λ o. connected_of o b) (lookup-update p f m a) ∙ (elim (Option-cases (lookup p m)) [
      | inl e ↦ rw e (ground arith)
      | inr (x, e) ↦ rw e (ground (arith, k x))
    ])

pub attached-update :
    (p : ℕ) (f : Endpoint → Endpoint) (m : Map Endpoint) (a : ℕ)
    → ((e : Endpoint) → (f e).attached ≡ e.attached)
    → attached (update_endpoint p f m) a ≡ attached m a
attached-update p f m a k =
    ap (attached_of) (lookup-update p f m a) ∙ (elim (Option-cases (lookup p m)) [
      | inl e ↦ rw e (ground arith)
      | inr (x, e) ↦ rw e (ground (arith, k x))
    ])

pub present-update :
    (p : ℕ) (f : Endpoint → Endpoint) (m : Map Endpoint) (a : ℕ)
    → present (update_endpoint p f m) a ≡ present m a
present-update p f m a =
    ap (present_of) (lookup-update p f m a) ∙ (elim (Option-cases (lookup p m)) [
      | inl e ↦ rw e (ground arith)
      | inr (x, e) ↦ rw e (ground arith)
    ])

-- The links are between two different peers of the network, and the same from both ends; no
-- endpoint has an id that is not given yet.
pub record IsLinked (m : Map Endpoint) (next : ℕ) : Type 0 where
  pub symmetric : (a b : ℕ) → connected m a b ≡ connected m b a
  pub apart : (a : ℕ) → connected m a a ≡ false
  pub live : (a b : ℕ) → (connected m a b ≡ false) ⊎ (attached m a ≡ true)
  pub fresh : (a : ℕ) → (present m a ≡ false) ⊎ (a < next)

pub update-IsLinked :
    (p : ℕ) (f : Endpoint → Endpoint) (m : Map Endpoint) (next : ℕ)
    → KeepsLinks f
    → IsLinked m next
    → IsLinked (update_endpoint p f m) next
update-IsLinked p f m next k h = record {
  symmetric =
      λ a b. connected-update p f m a b k ∙ h.symmetric a b ∙ sym (connected-update p f m b a k);
  apart = λ a. connected-update p f m a a k ∙ h.apart a;
  live = λ a b.
      ground
        (arith, h.live a b, connected-update p f m a b k, attached-update p f m a (λ e. (k e).1));
  fresh = λ a. ground (arith, h.fresh a, present-update p f m a);
}

pub link-IsLinked :
    (a b : ℕ) (m : Map Endpoint) (next : ℕ)
    → a ≢ b
    → attached m a ≡ true
    → attached m b ≡ true
    → IsLinked m next
    → IsLinked (update_endpoint b (linked_to a) (update_endpoint a (linked_to b) m)) next
unfolding linked_to
link-IsLinked a b m next ne ha hb h = record {
  symmetric = λ x y. links x y ∙ ground (arith, h.symmetric x y) ∙ sym (links y x);
  apart = λ x. links x x ∙ ground (arith, h.apart x);
  live = λ x y. ground (arith, h.live x y, links x y, same x, ha, hb);
  fresh = λ x.
      ground
        (arith, h.fresh x, present-update b (linked_to a) m' x, present-update a (linked_to b) m x);
}
  where
    m' : Map Endpoint
    m' = update_endpoint a (linked_to b) m

    there : (x : ℕ) → attached m x ≡ true → present m x ≡ true
    there x e = elim (Option-cases (lookup x m)) [
      | inl f ↦ absurd (ground (arith, e, f))
      | inr (y, f) ↦ rw f refl
    ]

    links :
        (x y : ℕ)
        → connected (update_endpoint b (linked_to a) m') x y
          ≡ (connected m x y || (a == x && b == y || b == x && a == y))
    links x y = ground (
      arith,
      connected-linked b a m' x y,
      connected-linked a b m x y,
      present-update a (linked_to b) m b,
      there a ha,
      there b hb,
    )

    same : (x : ℕ) → attached (update_endpoint b (linked_to a) m') x ≡ attached m x
    same x =
        attached-update b (linked_to a) m' x (λ e. refl)
        ∙ attached-update a (linked_to b) m x (λ e. refl)

-- Unlinking two peers removes that link and no other.
pub connected_unlink :
    (a b : ℕ) (m : Map Endpoint) (x y : ℕ)
    → connected (update_endpoint b (unlinked_from a) (update_endpoint a (unlinked_from b) m)) x y
      ≡ (connected m x y && not (a == x && b == y || b == x && a == y))
connected_unlink a b m x y = ground (
  arith,
  connected-unlinked b a (update_endpoint a (unlinked_from b) m) x y,
  connected-unlinked a b m x y,
)

pub unlink-IsLinked :
    (a b : ℕ) (m : Map Endpoint) (next : ℕ)
    → IsLinked m next
    → IsLinked (update_endpoint b (unlinked_from a) (update_endpoint a (unlinked_from b) m)) next
unfolding unlinked_from
unlink-IsLinked a b m next h = record {
  symmetric = λ x y.
      connected_unlink a b m x y
      ∙ ground (arith, h.symmetric x y)
      ∙ sym (connected_unlink a b m y x);
  apart = λ x. connected_unlink a b m x x ∙ ground (arith, h.apart x);
  live = λ x y. ground (arith, h.live x y, connected_unlink a b m x y, same x);
  fresh = λ x. ground (
    arith,
    h.fresh x,
    present-update b (unlinked_from a) m' x,
    present-update a (unlinked_from b) m x,
  );
}
  where
    m' : Map Endpoint
    m' = update_endpoint a (unlinked_from b) m

    same : (x : ℕ) → attached (update_endpoint b (unlinked_from a) m') x ≡ attached m x
    same x =
        attached-update b (unlinked_from a) m' x (λ e. refl)
        ∙ attached-update a (unlinked_from b) m x (λ e. refl)

-- A new endpoint, at an id that none has.
pub insert-IsLinked :
    (m : Map Endpoint) (next : ℕ)
    → IsLinked m next
    → IsLinked (insert next new_endpoint m) (next + 1)
unfolding has
insert-IsLinked m next h = record {
  symmetric = λ a b. links a b ∙ h.symmetric a b ∙ sym (links b a);
  apart = λ a. links a a ∙ h.apart a;
  live = λ a b.
      ground (arith, h.live a b, links a b, ap attached_of (lookup-insert a next new_endpoint m));
  fresh = λ a. ground (arith, h.fresh a, ap present_of (lookup-insert a next new_endpoint m));
}
  where
    none_there : connected_of (lookup next m) next ≡ false
    none_there = h.apart next

    absent : (b : ℕ) → connected m next b ≡ false
    absent b = ground (arith, h.fresh next)

    links : (a b : ℕ) → connected (insert next new_endpoint m) a b ≡ connected m a b
    links a b =
        ap (λ o. connected_of o b) (lookup-insert a next new_endpoint m) ∙ ground (arith, absent b)

-- A peer without links that leaves the network.
abbrev pub leave : Endpoint → Endpoint
leave e = record e { attached = false }

pub leave-IsLinked :
    (p : ℕ) (m : Map Endpoint) (next : ℕ)
    → ((b : ℕ) → connected m p b ≡ false)
    → IsLinked m next
    → IsLinked (update_endpoint p leave m) next
leave-IsLinked p m next none_left h = record {
  symmetric = λ a b. links a b ∙ h.symmetric a b ∙ sym (links b a);
  apart = λ a. links a a ∙ h.apart a;
  live = λ a b.
      ground
        (arith, h.live a b, links a b, none_left b, ap attached_of (lookup-update p leave m a));
  fresh = λ a. ground (arith, h.fresh a, present-update p leave m a);
}
  where
    links : (a b : ℕ) → connected (update_endpoint p leave m) a b ≡ connected m a b
    links a b =
        ap (λ o. connected_of o b) (lookup-update p leave m a) ∙ elim (Option-cases (lookup p m)) [
          | inl e ↦ rw e (ground arith)
          | inr (x, e) ↦ rw e (ground arith)
        ]

-- The ids of linked peers were given.
pub linked-below :
    (m : Map Endpoint) (next a b : ℕ) → IsLinked m next → connected m a b ≡ true → a < next
linked-below m next a b h c = elim (Option-cases (lookup a m)) [
  | inl e ↦ absurd (ground (arith, ap (λ o. connected_of o b) e, c))
  | inr (x, e) ↦ ground (arith, h.fresh a, ap present_of e)
]
