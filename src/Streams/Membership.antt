-- ===== src/Streams/Membership.antt =====
-- Who gets the events of a group: django_app/apps/realtime/consumers.py, over any sequence of calls.
use ecommerce.Prelude.{
  ℕ, ◌≡◌, refl, ap, inl, inr, true, not, Option, none, some, List, [], ◌∷◌, arith, any,
  filter_by-keeps-All, All, Bool-cases,
}
use ecommerce.Core.Permissions.{User}
use ecommerce.Orders.{Order}
use ecommerce.Streams.{
  Group, order, user, dashboard, group_eq, Layer, is_member, group_add, group_discard, Consumer,
  order_status, user_firehose, admin_dashboard, user_owns_order, connect, own_group, disconnect,
  leave, leave, group_send,
}

-- Who may follow a group: staff and the owner an order, a user its own events, staff the dashboard.
abbrev pub MayFollow : List Order → Group → Option User → Type 0
MayFollow orders g none = ⊥
MayFollow orders (order k) (some u) =
    (u.is_authenticated ≡ true) × (user_owns_order u.id k u.is_staff orders ≡ true)
MayFollow orders (user id) (some u) = (u.is_authenticated ≡ true) × (u.id ≡ id)
MayFollow orders dashboard (some u) = u.is_staff ≡ true

-- A socket's own calls.
pub data Event : Type 0 where
  connected disconnected : Consumer → ℕ → Event

group_eq_sound : (g h : Group) → group_eq g h ≡ true → g ≡ h
group_eq_sound (order a) (order b) e = ap order (ground arith)
group_eq_sound (user a) (user b) e = ap user (ground arith)
group_eq_sound dashboard dashboard e = refl
group_eq_sound (order a) (user b) e = absurd (ground arith)
group_eq_sound (order a) dashboard e = absurd (ground arith)
group_eq_sound (user a) (order b) e = absurd (ground arith)
group_eq_sound (user a) dashboard e = absurd (ground arith)
group_eq_sound dashboard (order b) e = absurd (ground arith)
group_eq_sound dashboard (user b) e = absurd (ground arith)

module _ (orders : List Order) (user_of : ℕ → Option User) where
  abbrev happen : Layer → Event → Layer
  happen layer (connected c socket) = (connect c (user_of socket) orders socket layer).1
  happen layer (disconnected c socket) = disconnect c (user_of socket) socket layer

  abbrev pub happen_all : Layer → List Event → Layer
  happen_all layer [] = layer
  happen_all layer (e ∷ events) = happen_all (happen layer e) events

  abbrev pub IsAuthorized : Layer → Type 0
  IsAuthorized layer = All (λ m. MayFollow orders m.0 (user_of m.1)) layer

  group_add-IsAuthorized :
      (g : Group) (socket : ℕ) (layer : Layer)
      → MayFollow orders g (user_of socket)
      → IsAuthorized layer
      → IsAuthorized (group_add g socket layer)
  unfolding group_add
  group_add-IsAuthorized g socket layer may h = elim (Bool-cases (any (is_member g socket) layer)) [
    | inl e ↦ rw e h
    | inr e ↦ rw e (may, h)
  ]

  connect-IsAuthorized :
      (c : Consumer) (socket : ℕ) (layer : Layer) (u : Option User)
      → ((g : Group) → MayFollow orders g u → IsAuthorized (group_add g socket layer))
      → IsAuthorized layer
      → IsAuthorized (connect c u orders socket layer).1
  unfolding connect
  connect-IsAuthorized (order_status k) socket layer none add h = h
  connect-IsAuthorized user_firehose socket layer none add h = h
  connect-IsAuthorized admin_dashboard socket layer none add h = h
  connect-IsAuthorized (order_status k) socket layer (some u) add h =
      elim (Bool-cases u.is_authenticated) [
        | inl e ↦ elim (Bool-cases (user_owns_order u.id k u.is_staff orders)) [
          | inl o ↦ rw (e, o) (add (order k) (e, o))
          | inr o ↦ rw (e, o) h
        ]
        | inr e ↦ rw e h
      ]
  connect-IsAuthorized user_firehose socket layer (some u) add h =
      elim (Bool-cases u.is_authenticated) [
        | inl e ↦ rw e (add (user u.id) (e, refl))
        | inr e ↦ rw e h
      ]
  connect-IsAuthorized admin_dashboard socket layer (some u) add h = elim (Bool-cases u.is_staff) [
    | inl e ↦ rw e (add dashboard e)
    | inr e ↦ rw e h
  ]

  disconnect-IsAuthorized :
      (g : Option Group) (socket : ℕ) (layer : Layer)
      → IsAuthorized layer
      → IsAuthorized (leave g socket layer)
  unfolding group_discard
  disconnect-IsAuthorized none socket layer h = h
  disconnect-IsAuthorized (some g) socket layer h =
      filter_by-keeps-All _ (λ m. not (is_member g socket m)) layer h

  happen-IsAuthorized :
      (layer : Layer) (e : Event) → IsAuthorized layer → IsAuthorized (happen layer e)
  unfolding disconnect
  happen-IsAuthorized layer (connected c socket) h =
      connect-IsAuthorized c socket layer (user_of socket)
        (λ g may. group_add-IsAuthorized g socket layer may h) h
  happen-IsAuthorized layer (disconnected c socket) h =
      disconnect-IsAuthorized (own_group c (user_of socket)) socket layer h

  pub happen_all-IsAuthorized :
      (layer : Layer) (events : List Event)
      → IsAuthorized layer
      → IsAuthorized (happen_all layer events)
  happen_all-IsAuthorized layer [] h = h
  happen_all-IsAuthorized layer (e ∷ events) h =
      happen_all-IsAuthorized (happen layer e) events (happen-IsAuthorized layer e h)

  pub sent_to :
      (g : Group) (layer : Layer)
      → IsAuthorized layer
      → All (λ socket. MayFollow orders g (user_of socket)) (group_send g layer)
  unfolding group_send
  sent_to g [] h = tt
  sent_to g ((k, s) ∷ layer) h =
      let rest = sent_to g layer h.1 in
      elim (Bool-cases (group_eq k g)) [
        | inl e ↦ rw e (rw (group_eq_sound k g e) at h.0, rest)
        | inr e ↦ rw e rest
      ]

  -- While the orders do not change: whatever sockets connect and disconnect, with whatever consumers
  -- and in whatever order, an event of an order's group reaches only sockets of signed-in staff and of
  -- the order's owner, an event of a user's group only sockets of that user, and one of the dashboard
  -- only sockets of staff.
  pub group_send_lem :
      (events : List Event) (g : Group)
      → All (λ socket. MayFollow orders g (user_of socket)) (group_send g (happen_all [] events))
  group_send_lem events g = sent_to g (happen_all [] events) (happen_all-IsAuthorized [] events tt)
