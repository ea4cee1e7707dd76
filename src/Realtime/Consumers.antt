-- ===== src/Realtime/Consumers.antt =====
-- The tasks of a channel, over any sequence of calls: fastapi_app/realtime/manager.py.
use text.Mathlib.Text.{◌==◌ as str_eq}
use text.Mathlib.TextPositions.{eq_refl}
use text.Mathlib.TextEquality.{eq_iff}
use ecommerce.Prelude.{
  ℕ, suc, ◌-◌, ◌≡◌, refl, sym, ap, ◌∙◌, inl, inr, Bool, true, false, Option, none, some, String,
  List, [], ◌∷◌, arith, Bool-cases,
}
use ecommerce.Realtime.{
  Task, consuming, crashed, Manager, sockets_of, put, discard, connect, disconnect, deliver, crash,
  Event, connected, disconnected, delivered, failed, happen, happen_all, started, add, contains,
  with_task, cancel, close_if_empty, crash_task, put-same,
}

abbrev pub count : Option Task → ℕ
count none = 0
count (some consuming) = 1
count (some crashed) = 0

-- A channel without a task has no socket, and its running tasks are the one that is registered, or
-- none.
abbrev pub IsConsistent : Option (List ℕ) → Option Task → ℕ → Type 0
IsConsistent s t n = (t ≡ none → sockets_of s ≡ []) × (n ≡ count t)

abbrev pub IsHealthy : Manager → Type 0
IsHealthy m = (j : String) → IsConsistent (m.channels j) (m.pubsub_tasks j) (m.running j)

put-own : {A : Type 0} (c j : String) (f : String → A) → put c (f c) f j ≡ f j
put-own c j f = elim (Bool-cases (str_eq j c)) [
  | inl e ↦ rw e (ap f (sym ((eq_iff j c).0 e)))
  | inr ne ↦ rw ne refl
]

-- A change of one channel.
module _ (c : String) (s : Option (List ℕ)) (t : Option Task) (n : ℕ) (m : Manager)
    (here : IsConsistent s t n) (h : IsHealthy m) where
  all_put : IsHealthy (record {
    channels = put c s m.channels;
    pubsub_tasks = put c t m.pubsub_tasks;
    running = put c n m.running;
  })
  all_put j = elim (Bool-cases (str_eq j c)) [ inl e ↦ rw e here | inr ne ↦ rw ne (h j) ]

  same_task :
      t ≡ m.pubsub_tasks c
      → n ≡ m.running c
      → IsHealthy (record m { channels = put c s m.channels })
  same_task et en j = rw (et, en, put-own c j m.pubsub_tasks, put-own c j m.running) at (all_put j)

  same_running :
      n ≡ m.running c
      → IsHealthy
          (record m { channels = put c s m.channels; pubsub_tasks = put c t m.pubsub_tasks })
  same_running en j = rw (en, put-own c j m.running) at (all_put j)

  same_sockets :
      s ≡ m.channels c
      → IsHealthy (record m { pubsub_tasks = put c t m.pubsub_tasks; running = put c n m.running })
  same_sockets es j = rw (es, put-own c j m.channels) at (all_put j)

connect-IsHealthy : (ws : ℕ) (c : String) (m : Manager) → IsHealthy m → IsHealthy (connect ws c m)
unfolding connect
connect-IsHealthy ws c m h = by_task (m.pubsub_tasks c) refl
  where
    s : Option (List ℕ)
    s = some (add ws (sockets_of (m.channels c)))

    by_task :
        (t : Option Task)
        → m.pubsub_tasks c ≡ t
        → IsHealthy (with_task c t (record m { channels = put c s m.channels }))
    by_task (some t) e =
        same_task c s (some t) (m.running c) m (λ none_. absurd (ground arith), rw e at (h c).1) h
          (sym e) refl
    by_task none e =
        all_put c s (some consuming) (suc (m.running c)) m
          (λ none_. absurd (ground arith), ap suc (rw e at (h c).1)) h

disconnect-IsHealthy :
    (ws : ℕ) (c : String) (m : Manager) → IsHealthy m → IsHealthy (disconnect ws c m)
unfolding disconnect discard
disconnect-IsHealthy ws c m h = by_left (discard ws (sockets_of (m.channels c))) refl
  where
    popped : Manager
    popped = record m { channels = put c none m.channels; pubsub_tasks = put c none m.pubsub_tasks }

    by_task : (t : Option Task) → m.pubsub_tasks c ≡ t → IsHealthy (cancel c t popped)
    by_task (some consuming) e =
        all_put c none none (m.running c - 1) m (λ none_. refl, ap (λ n. n - 1) (rw e at (h c).1)) h
    by_task (some crashed) e =
        same_running c none none (m.running c) m (λ none_. refl, rw e at (h c).1) h refl
    by_task none e =
        same_running c none none (m.running c) m (λ none_. refl, rw e at (h c).1) h refl

    by_left :
        (left : List ℕ)
        → discard ws (sockets_of (m.channels c)) ≡ left
        → IsHealthy (close_if_empty c left m)
    by_left [] e = by_task (m.pubsub_tasks c) refl
    by_left (w ∷ left) e =
        same_task c (some (w ∷ left)) (m.pubsub_tasks c) (m.running c) m
          (λ none_. let empty = (h c).0 none_ in sym e ∙ rw empty refl, (h c).1) h refl refl

deliver-IsHealthy :
    (well : Bool) (ws : ℕ) (c : String) (m : Manager)
    → IsHealthy m
    → IsHealthy (deliver well ws c m)
unfolding deliver discard
deliver-IsHealthy true ws c m h = h
deliver-IsHealthy false ws c m h =
    same_task c (some (discard ws (sockets_of (m.channels c)))) (m.pubsub_tasks c) (m.running c) m
      (λ none_. let empty = (h c).0 none_ in rw empty refl, (h c).1) h refl refl

crash-IsHealthy : (c : String) (m : Manager) → IsHealthy m → IsHealthy (crash c m)
unfolding crash
crash-IsHealthy c m h = by_task (m.pubsub_tasks c) refl
  where
    by_task : (t : Option Task) → m.pubsub_tasks c ≡ t → IsHealthy (crash_task c t m)
    by_task (some consuming) e =
        same_sockets c (m.channels c) (some crashed) (m.running c - 1) m
          (λ none_. absurd (ground arith), ap (λ n. n - 1) (rw e at (h c).1)) h refl
    by_task (some crashed) e = h
    by_task none e = h

happen-IsHealthy : (m : Manager) (e : Event) → IsHealthy m → IsHealthy (happen m e)
happen-IsHealthy m (connected ws c) h = connect-IsHealthy ws c m h
happen-IsHealthy m (disconnected ws c) h = disconnect-IsHealthy ws c m h
happen-IsHealthy m (delivered well ws c) h = deliver-IsHealthy well ws c m h
happen-IsHealthy m (failed c) h = crash-IsHealthy c m h

happen_all-IsHealthy :
    (m : Manager) (events : List Event) → IsHealthy m → IsHealthy (happen_all m events)
happen_all-IsHealthy m [] h = h
happen_all-IsHealthy m (e ∷ events) h =
    happen_all-IsHealthy (happen m e) events (happen-IsHealthy m e h)

-- Whatever connects, disconnects, is sent or fails after the start, and in whatever order: a
-- channel with a socket has a registered task, and of each channel at most one task runs, which is
-- the registered one.
pub consumers_lem :
    (events : List Event) (c : String)
    → let m = happen_all started events in
      ((m.pubsub_tasks c ≡ none) → sockets_of (m.channels c) ≡ [])
      × (m.running c ≡ count (m.pubsub_tasks c))
consumers_lem events c = happen_all-IsHealthy started events (λ j. (λ e. refl, refl)) c

contains-add : (ws : ℕ) (s : List ℕ) → contains ws (add ws s) ≡ true
contains-add ws s = elim (Bool-cases (contains ws s)) [
  | inl e ↦ rw e e
  | inr e ↦ rw e (ground arith)
]

-- The task of a channel fails, and a socket connects to the channel afterwards, over a manager in
-- which running tasks are registered. The socket is in the channel, but no task of the channel runs,
-- since the failed task is still registered and no new one is started.
pub connect-crash :
    (ws : ℕ) (c : String) (m : Manager)
    → IsHealthy m
    → m.pubsub_tasks c ≡ some consuming
    → let m' = connect ws c (crash c m) in
      (contains ws (sockets_of (m'.channels c)) ≡ true) × (m'.running c ≡ 0)
unfolding connect crash
connect-crash ws c m h e =
    let one : m.running c ≡ 1 = rw e at (h c).1 in
    let grown = add ws (sockets_of (m.channels c)) in
    rw (e, eq_refl c)
      (
        ap (λ s. contains ws (sockets_of s)) (put-same c (some grown) m.channels)
            ∙ contains-add ws (sockets_of (m.channels c)),
        put-same c (m.running c - 1) m.running ∙ ap (λ n. n - 1) one,
      )
