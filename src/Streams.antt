-- ===== src/Streams.antt =====
-- django_app/apps/realtime/consumers.py: the three WebSocket consumers and the groups of the channel
-- layer that they join; and django_app/apps/orders/signals.py, which sends to them. A socket is a number; its user comes from the session and does not change.
pub mod Membership
pub mod Broadcasting
use ecommerce.Prelude.{
  ℕ, Bool, true, false, not, ◌&&◌, ◌||◌, Option, none, some, List, [], ◌∷◌, ◌++◌, ◌==◌, any,
  filter_by, map, if◌then◌else◌,
}
use ecommerce.Core.Models.{alive, lookup}
use ecommerce.Core.Permissions.{User, owned_by}
use ecommerce.Orders.{Order, OrderEvent, order_model}

-- The groups `order.<id>`, `user.<id>` and `admin.dashboard`.
pub data Group : Type 0 where
  order user : ℕ → Group
  dashboard : Group

abbrev pub group_eq : Group → Group → Bool
group_eq (order a) (order b) = a == b
group_eq (user a) (user b) = a == b
group_eq dashboard dashboard = true
group_eq _ _ = false

-- The members of all groups.
abbrev pub Layer : Type 0
Layer = List (Group × ℕ)

abbrev pub is_member : Group → ℕ → Group × ℕ → Bool
is_member g socket (h, s) = group_eq h g && s == socket

unfoldable pub group_add : Group → ℕ → Layer → Layer
group_add g socket layer = if any (is_member g socket) layer then layer else (g, socket) ∷ layer

unfoldable pub group_discard : Group → ℕ → Layer → Layer
group_discard g socket layer = filter_by (λ m. not (is_member g socket m)) layer

-- `OrderStatusConsumer`, with the order of its URL, `UserFirehoseConsumer`, `AdminDashboardConsumer`.
pub data Consumer : Type 0 where
  order_status : ℕ → Consumer
  user_firehose admin_dashboard : Consumer

-- The socket is closed with a code, or accepted.
pub data Outcome : Type 0 where
  closed : ℕ → Outcome
  accepted : Outcome

unfoldable pub user_owns_order : ℕ → ℕ → Bool → List Order → Bool
user_owns_order user_id order_id is_staff orders =
    if is_staff then true else any (λ o. o.id == order_id && owned_by user_id o.user) (alive orders)

abbrev join : Group → ℕ → Layer → Outcome × Layer
join g socket layer = (accepted, group_add g socket layer)

unfoldable pub connect : Consumer → Option User → List Order → ℕ → Layer → Outcome × Layer
unfolding group_add user_owns_order
connect (order_status k) none orders socket layer = (closed 4401, layer)
connect (order_status k) (some u) orders socket layer =
    if not u.is_authenticated
    then (closed 4401, layer)
    else if not (user_owns_order u.id k u.is_staff orders)
    then (closed 4403, layer)
    else join (order k) socket layer
connect user_firehose none orders socket layer = (closed 4401, layer)
connect user_firehose (some u) orders socket layer =
    if not u.is_authenticated then (closed 4401, layer) else join (user u.id) socket layer
connect admin_dashboard none orders socket layer = (closed 4403, layer)
connect admin_dashboard (some u) orders socket layer =
    if not u.is_staff then (closed 4403, layer) else join dashboard socket layer

-- The group that a consumer leaves: the firehose knows its group only if it has a user.
abbrev pub own_group : Consumer → Option User → Option Group
own_group (order_status k) u = some (order k)
own_group user_firehose none = none
own_group user_firehose (some u) = if u.is_authenticated then some (user u.id) else none
own_group admin_dashboard u = some dashboard

abbrev pub leave : Option Group → ℕ → Layer → Layer
leave none socket layer = layer
leave (some g) socket layer = group_discard g socket layer

unfoldable pub disconnect : Consumer → Option User → ℕ → Layer → Layer
unfolding group_discard
disconnect c u socket layer = leave (own_group c u) socket layer

-- `group_send`: the sockets that get an event of a group.
unfoldable pub group_send : Group → Layer → List ℕ
group_send g layer = map (λ m. m.1) (filter_by (λ m. group_eq m.0 g) layer)

abbrev pub firehose : Option ℕ → Layer → List ℕ
firehose none layer = []
firehose (some u) layer = group_send (user u) layer

-- The groups that hear of an event: the order's, and its user's.
abbrev pub hearers : Order → Layer → List ℕ
hearers o layer = group_send (order o.id) layer ++ firehose o.user layer

abbrev pub told : Option Order → Option Layer → List ℕ
told (some o) (some layer) = hearers o layer
told _ _ = []

-- `broadcast_order_event`: the sockets that are sent an event when its row is saved, on a channel
-- layer, if there is one, that does not fail.
unfoldable pub broadcast_order_event : Bool → List Order → OrderEvent → Option Layer → List ℕ
unfolding group_send
broadcast_order_event created orders e layer =
    if created then told (lookup e.order orders) layer else []
