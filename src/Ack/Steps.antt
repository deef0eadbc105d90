-- ===== src/Ack/Steps.antt =====
-- Running the tasks of internal/downlink/ack/ack.go, one by one.
use chirpstack_network_serve.Prelude.{◌≡◌, Bool, true, false, none, some, List, [], ◌∷◌, arith}
use chirpstack_network_serve.Ack.{State, Error, Task, AckContext, run_tasks, when}

pub run_tasks-nil : (s : State) → run_tasks [] s ≡ (s, none)
unfolding run_tasks
run_tasks-nil s = ground arith

pub run_tasks-done :
    (t : Task) (ts : List Task) (s u : State)
    → t s ≡ (u, none)
    → run_tasks (t ∷ ts) s ≡ run_tasks ts u
unfolding run_tasks
run_tasks-done t ts s u h = ground (arith, h)

pub run_tasks-fail :
    (t : Task) (ts : List Task) (s u : State) (e : Error)
    → t s ≡ (u, some e)
    → run_tasks (t ∷ ts) s ≡ (u, some e)
unfolding run_tasks
run_tasks-fail t ts s u e h = ground (arith, h)

pub when-skip :
    (c : AckContext → Bool) (ts : List Task) (s : State) → c s.0 ≡ false → when c ts s ≡ (s, none)
unfolding when
when-skip c ts s h = ground (arith, h)

pub when-run :
    (c : AckContext → Bool) (ts : List Task) (s : State)
    → c s.0 ≡ true
    → when c ts s ≡ run_tasks ts s
unfolding when
when-run c ts s h = ground (arith, h)
