-- ===== src/Realtime/Fanout.antt =====
-- Delivery of a message: the loops of `broadcast` and `_consume` in fastapi_app/realtime/manager.py.
use text.Mathlib.Text.{◌==◌ as str_eq}
use ecommerce.Prelude.{ℕ, ◌≡◌, Bool, false, ◌&&◌, String, ◌==◌}
use ecommerce.Realtime.{Manager, sockets_of, contains, Event, connected}

-- The socket is not in the channel.
abbrev pub IsOut : ℕ → String → Manager → Type 0
IsOut ws c m = contains ws (sockets_of (m.channels c)) ≡ false

-- The step puts the socket into the channel.
abbrev pub joins : ℕ → String → Event → Bool
joins ws c (connected x d) = x == ws && str_eq c d
joins ws c _ = false
