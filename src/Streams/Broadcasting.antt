-- ===== src/Streams/Broadcasting.antt =====
-- Who hears of the events of an order: django_app/apps/orders/signals.py with realtime/consumers.py.
use ecommerce.Prelude.{
  ℕ, ◌≡◌, refl, ap, ◌∙◌, ◌⊎◌, inl, inr, Bool, true, false, ◌&&◌, Option, none, some, List, [], ◌∷◌,
  ◌==◌, arith, any, All, All-map, All-append, Bool-cases, &&-eq_true,
}
use ecommerce.Core.Models.{alive, is_alive, lookup, Distinct, IsStored}
use ecommerce.Core.Models.Rows.{filter-IsStored, pk-lookup}
use ecommerce.Core.Permissions.{User, owned_by}
use ecommerce.Orders.{Order, OrderEvent, order_model}
use ecommerce.Streams.{
  Layer, order, user, user_owns_order, group_send, hearers, firehose, broadcast_order_event,
}
use ecommerce.Streams.Membership.{
  MayFollow, Event, IsAuthorized, happen_all, happen_all-IsAuthorized, sent_to,
}

-- A signed-in user who is staff or has placed the order.
abbrev pub Concerns : Order → Option User → Type 0
Concerns o none = ⊥
Concerns o (some u) =
    (u.is_authenticated ≡ true) × ((u.is_staff ≡ true) ⊎ (owned_by u.id o.user ≡ true))

owned_row :
    (u k : ℕ) (o : Order) (orders rows : List Order)
    → lookup k orders ≡ some o
    → All (IsStored orders) rows
    → any (λ a. a.id == k && owned_by u a.user) rows ≡ true
    → owned_by u o.user ≡ true
owned_row u k o orders [] there stored h = absurd (ground arith)
owned_row u k o orders (a ∷ rows) there stored h =
    elim (Bool-cases (a.id == k && owned_by u a.user)) [
      | inl e ↦
          let (key, own) = &&-eq_true (a.id == k) (owned_by u a.user) e in
          let p : a.id ≡ k = ground arith in
          let same : o ≡ a = ground (arith, stored.0, there, ap (λ j. lookup j orders) p) in
          ap (λ (x : Order). owned_by u x.user) same ∙ own
      | inr e ↦ owned_row u k o orders rows there stored.1 (ground arith)
    ]

module _ (orders : List Order) (distinct : Distinct orders) (o : Order)
    (there : IsStored orders o) where
  of_order : (u : Option User) → MayFollow orders (order o.id) u → Concerns o u
  unfolding user_owns_order alive
  of_order none may = may
  of_order (some u) (signed_in, may) = elim (Bool-cases u.is_staff) [
    | inl e ↦ (signed_in, inl e)
    | inr e ↦ (
      signed_in,
      inr (
          owned_row u.id o.id o orders (alive orders) there
            (filter-IsStored is_alive orders distinct) (rw e at may)),
    )
  ]

  of_user :
      (owner : ℕ) (u : Option User)
      → o.user ≡ some owner
      → MayFollow orders (user owner) u
      → Concerns o u
  of_user owner none placed may = may
  of_user owner (some u) placed (signed_in, same) =
      (signed_in, inr (ap (owned_by u.id) placed ∙ ground arith))

  module _ (user_of : ℕ → Option User) (layer : Layer)
      (fine : IsAuthorized orders user_of layer) where
    abbrev Hears : ℕ → Type 0
    Hears socket = Concerns o (user_of socket)

    firehose-Hears : (owner : Option ℕ) → o.user ≡ owner → All Hears (firehose owner layer)
    firehose-Hears none placed = tt
    firehose-Hears (some u) placed =
        All-map _ Hears (λ socket may. of_user u (user_of socket) placed may)
          (group_send (user u) layer) (sent_to orders user_of (user u) layer fine)

    hearers-Hears : All Hears (hearers o layer)
    hearers-Hears =
        All-append Hears (group_send (order o.id) layer) (firehose o.user layer)
          (All-map _ Hears (λ socket may. of_order (user_of socket) may)
            (group_send (order o.id) layer) (sent_to orders user_of (order o.id) layer fine))
          (firehose-Hears o.user refl)

-- No two orders have one key, and they do not change while sockets connect and disconnect, with
-- whatever consumers and in whatever order. Then an event that is saved for an order is sent only to
-- sockets of signed-in users who are staff or have placed that order.
pub broadcast_order_event_lem :
    (orders : List Order) (user_of : ℕ → Option User) (events : List Event) (created : Bool)
    (e : OrderEvent) (o : Order)
    → Distinct orders
    → lookup e.order orders ≡ some o
    → All
        (λ socket. Concerns o (user_of socket))
        (broadcast_order_event created orders e (some (happen_all orders user_of [] events)))
unfolding broadcast_order_event
broadcast_order_event_lem orders user_of events false e o distinct there = tt
broadcast_order_event_lem orders user_of events true e o distinct there =
    let stored : IsStored orders o =
      ap (λ j. lookup j orders) (pk-lookup e.order o orders there) ∙ there in
    rw there (
      hearers-Hears orders distinct o stored user_of (happen_all orders user_of [] events)
        (happen_all-IsAuthorized orders user_of [] events tt))
