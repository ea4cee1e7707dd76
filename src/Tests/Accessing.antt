-- ===== src/Tests/Accessing.antt =====
-- The theorems on the streams of events, at concrete inputs.
use ecommerce.Prelude.{ℕ, refl, true, none, Option, some, List, [], ◌∷◌, All, ◌==◌, if◌then◌else◌}
use ecommerce.Core.Permissions.{User}
use ecommerce.Streams.{order_status, user_firehose, admin_dashboard, broadcast_order_event}
use ecommerce.Streams.Membership.{Event, connected, disconnected, happen_all}
use ecommerce.Streams.Broadcasting.{Concerns, broadcast_order_event_lem}
use ecommerce.Core.Models.{lookup}
use ecommerce.Orders.{OrderEvent, created, order_model}
use ecommerce.Tests.{user, order}

-- Socket 1 belongs to the user, the others to nobody.
abbrev user_of : ℕ → Option User
user_of socket = if socket == 1 then some user else none

abbrev events : List Event
events =
    connected (order_status 100) 1
    ∷ connected (order_status 100) 2
    ∷ connected user_firehose 1
    ∷ connected admin_dashboard 1
    ∷ disconnected user_firehose 1
    ∷ []

abbrev event : OrderEvent
event = record { order = 100; code = created; message = ""; actor = none }

broadcast_order_event_lem_example :
    All
      (λ socket. Concerns order (user_of socket))
      (broadcast_order_event true
        (order ∷ [])
        event
        (some (happen_all (order ∷ []) user_of [] events)))
unfolding lookup
broadcast_order_event_lem_example =
    broadcast_order_event_lem (order ∷ []) user_of events true event order (refl, tt) refl
