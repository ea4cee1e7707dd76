-- ===== src/Realtime.antt =====
-- fastapi_app/realtime/manager.py: the sockets of each channel, and the task that passes a channel's
-- messages on to them. Tasks of asyncio change only where they await: `connect` and `disconnect` hold
-- the lock and await nothing inside, so each is one step; a message is sent to one socket after
-- another without the lock, so each send is a step of its own and others may come between. A socket is
-- a number; a set of sockets is a list without repetitions.
pub mod Consumers
pub mod Fanout
use text.Mathlib.Text.{◌==◌ as str_eq}
use text.Mathlib.TextPositions.{eq_refl}
use ecommerce.Prelude.{
  ℕ, ◌≡◌, refl, suc, ◌+◌, ◌-◌, Bool, true, false, not, ◌&&◌, Option, none, some, String, List, [],
  ◌∷◌, ◌++◌, ◌==◌, any, filter_by, if◌then◌else◌,
}

-- A task of asyncio: it consumes, or it has ended because Redis failed.
pub data Task : Type 0 where
  consuming crashed : Task

-- `_channels`, `_pubsub_tasks`, and how many tasks of a channel still run, those included that no
-- dictionary holds.
pub record Manager : Type 0 where
  pub channels : String → Option (List ℕ)
  pub pubsub_tasks : String → Option Task
  pub running : String → ℕ

abbrev pub put : {A : Type 0} → String → A → (String → A) → String → A
put k a f j = if str_eq j k then a else f j

pub put-same : {A : Type 0} (k : String) (a : A) (f : String → A) → put k a f k ≡ a
put-same k a f = rw (eq_refl k) refl

-- A `defaultdict(set)` at a key.
abbrev pub sockets_of : Option (List ℕ) → List ℕ
sockets_of none = []
sockets_of (some s) = s

abbrev pub contains : ℕ → List ℕ → Bool
contains ws = any (λ x. x == ws)

abbrev pub add : ℕ → List ℕ → List ℕ
add ws s = if contains ws s then s else ws ∷ s

unfoldable pub discard : ℕ → List ℕ → List ℕ
discard ws s = filter_by (λ x. not (x == ws)) s

abbrev pub with_task : String → Option Task → Manager → Manager
with_task channel (some t) m = m
with_task channel none m = record m {
  pubsub_tasks = put channel (some consuming) m.pubsub_tasks;
  running = put channel (suc (m.running channel)) m.running;
}

unfoldable pub connect : ℕ → String → Manager → Manager
connect ws channel m = with_task channel (m.pubsub_tasks channel) (record m {
  channels = put channel (some (add ws (sockets_of (m.channels channel)))) m.channels;
})

-- `task.cancel()`, on a task that was popped or on none; a crashed task has ended already.
abbrev pub cancel : String → Option Task → Manager → Manager
cancel channel (some consuming) m = record m {
  running = put channel (m.running channel - 1) m.running;
}
cancel channel t m = m

abbrev pub close_if_empty : String → List ℕ → Manager → Manager
close_if_empty channel (ws ∷ s) m = record m { channels = put channel (some (ws ∷ s)) m.channels }
close_if_empty channel [] m = cancel channel (m.pubsub_tasks channel) (record m {
  channels = put channel none m.channels;
  pubsub_tasks = put channel none m.pubsub_tasks;
})

unfoldable pub disconnect : ℕ → String → Manager → Manager
unfolding discard
disconnect ws channel m = close_if_empty channel (discard ws (sockets_of (m.channels channel))) m

-- A round of the loops of `broadcast` and `_consume`, when the send has ended well or with an
-- exception. Discarding makes the set of a channel that has none.
unfoldable pub deliver : Bool → ℕ → String → Manager → Manager
unfolding discard
deliver true ws channel m = m
deliver false ws channel m = record m {
  channels = put channel (some (discard ws (sockets_of (m.channels channel)))) m.channels;
}

-- `_consume` of a channel ends with an exception, which is logged.
abbrev pub crash_task : String → Option Task → Manager → Manager
crash_task channel (some consuming) m = record m {
  pubsub_tasks = put channel (some crashed) m.pubsub_tasks;
  running = put channel (m.running channel - 1) m.running;
}
crash_task channel t m = m

unfoldable pub crash : String → Manager → Manager
crash channel m = crash_task channel (m.pubsub_tasks channel) m

abbrev pub started : Manager
started = record { channels = λ c. none; pubsub_tasks = λ c. none; running = λ c. 0 }

-- The steps of the manager.
pub data Event : Type 0 where
  connected disconnected : ℕ → String → Event
  delivered : Bool → ℕ → String → Event
  failed : String → Event

abbrev pub happen : Manager → Event → Manager
happen m (connected ws c) = connect ws c m
happen m (disconnected ws c) = disconnect ws c m
happen m (delivered well ws c) = deliver well ws c m
happen m (failed c) = crash c m

abbrev pub happen_all : Manager → List Event → Manager
happen_all m [] = m
happen_all m (e ∷ events) = happen_all (happen m e) events

-- The loop over the sockets that a channel had when it began: those that took the message. While a
-- message is sent to `ws`, the steps `between ws` of other tasks are taken.
unfoldable pub send_all :
    (ℕ → Bool) → String → (ℕ → List Event) → List ℕ → Manager → List ℕ × Manager
unfolding deliver connect disconnect crash
send_all takes channel between [] m = ([], m)
send_all takes channel between (ws ∷ rest) m =
    let (sent, m') =
      send_all takes channel between rest
        (deliver (takes ws) ws channel (happen_all m (between ws))) in
    (if takes ws then ws ∷ sent else sent, m')

unfoldable pub broadcast : (ℕ → Bool) → String → (ℕ → List Event) → Manager → List ℕ × Manager
unfolding send_all
broadcast takes channel between m =
    send_all takes channel between (sockets_of (m.channels channel)) m
