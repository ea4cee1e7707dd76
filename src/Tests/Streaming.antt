-- ===== src/Tests/Streaming.antt =====
-- The theorems on channels of sockets, at concrete inputs.
use ecommerce.Prelude.{ℕ, ◌≡◌, Bool, not, none, some, List, [], ◌∷◌, ◌==◌, if◌then◌else◌}
use ecommerce.Realtime.{
  Manager, consuming, started, sockets_of, Event, connected, disconnected, happen_all,
}
use ecommerce.Realtime.Consumers.{count, consumers_lem}

abbrev full : Manager
full = record {
  channels = λ c. some (1 ∷ 2 ∷ 3 ∷ []);
  pubsub_tasks = λ c. some consuming;
  running = λ c. 1;
}

abbrev takes : ℕ → Bool
takes ws = not (ws == 2)

-- While the message is sent to socket 1, socket 3 leaves and socket 4 comes.
abbrev between : ℕ → List Event
between ws = if ws == 1 then disconnected 3 "stock.SH-M" ∷ connected 4 "stock.SH-M" ∷ [] else []

consumers_lem_example :
    let m =
      happen_all started
        (connected 1 "stock.SH-M" ∷ connected 2 "stock.SH-M" ∷ disconnected 1 "stock.SH-M" ∷ []) in
    ((m.pubsub_tasks "stock.SH-M" ≡ none) → sockets_of (m.channels "stock.SH-M") ≡ [])
    × (m.running "stock.SH-M" ≡ count (m.pubsub_tasks "stock.SH-M"))
consumers_lem_example =
    consumers_lem
      (connected 1 "stock.SH-M" ∷ connected 2 "stock.SH-M" ∷ disconnected 1 "stock.SH-M" ∷ [])
      "stock.SH-M"
