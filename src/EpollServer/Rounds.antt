-- ===== src/EpollServer/Rounds.antt =====
-- The loop of `run_server` keeps the epoll server well formed.
use c_async_await.Base.{
  ℕ, ◌+◌, ◌≤◌, ◌≡◌, refl, true, Option, none, some, List, [], ◌∷◌, leb, length, mem, int_max,
  IsDistinct, inl, inr, Bool-cases,
}
use c_async_await.EpollServer.{
  Server, Event, Round, Run, report, round, rounds, run_server, on_events,
}
use c_async_await.EpollServer.Invariant.{IsServer}
use c_async_await.EpollServer.Batch.{CanServe, clients_of, on_events-IsServer}
use c_async_await.EpollServer.Events.{counter-IsServer}

-- What the kernel and the clients grant to the events of a round.
abbrev pub CanTake : Server → Option (List Event) → Type 0
CanTake s none = Unit
CanTake s (some es) =
    IsDistinct (clients_of es)
    × ((a : ℕ) → mem a (clients_of es) ≡ true → s.watched a ≡ true)
    × (s.current_client_cnt + length es ≤ int_max)
    × CanServe s es

-- And to the rounds, one after the other.
abbrev pub CanRound : Run → List Round → Type 0
CanRound r [] = Unit
CanRound r (step ∷ steps) =
    CanTake (report r step.current_time).server step.events
    × ((r' : Run) → round r step ≡ some r' → CanRound r' steps)

-- The server of a run is well formed.
abbrev pub IsServed : Run → ℕ → Type 0
IsServed r d = (cs : List ℕ) × (missed : ℕ) × IsServer r.server d cs missed

report-IsServed : (r : Run) (d current_time : ℕ) → IsServed r d → IsServed (report r current_time) d
unfolding report
report-IsServed r d current_time (cs, missed, is) =
    elim (Bool-cases (leb (r.last_message_time + 1) current_time)) [
      | inl q ↦ rw q (cs, missed, counter-IsServer is 0)
      | inr q ↦ rw q (cs, missed, is)
    ]

round-eq_none :
    (r : Run) (step : Round) → step.events ≡ none → round r step ≡ some (report r step.current_time)
unfolding round
round-eq_none r step e = rw e refl

round-eq_some :
    (r : Run) (step : Round) (es : List Event) (s : Server)
    → step.events ≡ some es
    → on_events (report r step.current_time).server es ≡ some s
    → round r step ≡ some (record (report r step.current_time) { server = s })
unfolding round
round-eq_some r step es s e runs = rw (e, runs) refl

round-IsServed :
    (r : Run) (step : Round) (d : ℕ)
    → IsServed r d
    → CanTake (report r step.current_time).server step.events
    → (r' : Run) × (round r step ≡ some r') × IsServed r' d
round-IsServed r step d is can = go step.events refl can
  where
    go :
        (o : Option (List Event))
        → step.events ≡ o
        → CanTake (report r step.current_time).server o
        → (r' : Run) × (round r step ≡ some r') × IsServed r' d
    go none e _ = (
      report r step.current_time,
      round-eq_none r step e,
      report-IsServed r d step.current_time is,
    )
    go (some es) e (apart, watched, few, can) =
        let (cs, missed, is') = report-IsServed r d step.current_time is in
        let (s, runs, served) = on_events-IsServer es is' apart watched few can in
        (
          record (report r step.current_time) { server = s },
          round-eq_some r step es s e runs,
          served,
        )

rounds-IsServed :
    (steps : List Round) (r : Run) (d : ℕ)
    → IsServed r d
    → CanRound r steps
    → (r' : Run) × (rounds r steps ≡ some r') × IsServed r' d
unfolding rounds
rounds-IsServed [] r d is can = (r, refl, is)
rounds-IsServed (step ∷ steps) r d is (can, rest) =
    let (r₁, runs, is₁) = round-IsServed r step d is can in
    let (r', runs', is') = rounds-IsServed steps r₁ d is₁ (rest r₁ runs) in (r', rw runs runs', is')

-- From a well formed server, however many rounds `run_server` makes, no assertion of the loop fails
-- and the server stays well formed, when in each round `epoll_wait` fails or returns events of
-- different watched clients, the count cannot overflow, `accept` returns neither 0 nor the socket
-- that listens, and the update that each event leads to passes its own assertions.
pub run_server-IsServed :
    (s : Server) (d time : ℕ) (cs : List ℕ) (missed : ℕ) (steps : List Round)
    → IsServer s d cs missed
    → CanRound
        (record { server = s; server_start_time = time; last_message_time = time; lines = [] })
        steps
    → (r' : Run) × (run_server s time steps ≡ some r') × IsServed r' d
unfolding run_server
run_server-IsServed s d time cs missed steps is can =
    rounds-IsServed steps
      (record { server = s; server_start_time = time; last_message_time = time; lines = [] }) d
      (cs, missed, is) can
