-- ===== src/Publisher/Loop.antt =====
-- The polling loop of apps/outbox-publisher/src/publisher.service.ts: its flags and its timer.
use message_management_api.Prelude.{
  ℕ, ◌+◌, ◌-◌, ◌≤◌, ◌≡◌, ◌⊎◌, Bool, true, false, Option, none, some, is_some, if◌then◌else◌, arith,
}

-- `timer` is the delay of the pending timer. `runs` counts the calls of `runOnce` that are under
-- way, which the program does not keep.
pub record LoopState : Type 0 where
  pub running : Bool
  pub stopping : Bool
  pub timer : Option ℕ
  pub runs : ℕ

abbrev pub initial : LoopState
initial = record { running = false; stopping = false; timer = none; runs = 0 }

unfoldable pub schedule_next_run : ℕ → LoopState → LoopState
schedule_next_run delay_ms s = if s.stopping then s else record s { timer = some delay_ms }

unfoldable pub on_module_init : LoopState → LoopState
unfolding schedule_next_run
on_module_init s = schedule_next_run 0 s

-- The timer goes off: `runLoop` up to the call of `runOnce`.
unfoldable pub start_run : ℕ → LoopState → LoopState
unfolding schedule_next_run
start_run poll_interval_ms s =
    if s.running
    then schedule_next_run poll_interval_ms (record s { timer = none })
    else record s { timer = none; running = true; runs = s.runs + 1 }

-- The `finally` of `runLoop`, whether `runOnce` returned or threw.
unfoldable pub finish_run : ℕ → LoopState → LoopState
unfolding schedule_next_run
finish_run poll_interval_ms s =
    schedule_next_run poll_interval_ms (record s { running = false; runs = s.runs - 1 })

-- `onApplicationShutdown` up to its wait.
unfoldable pub on_application_shutdown : LoopState → LoopState
on_application_shutdown s = record s { stopping = true; timer = none }

-- What can happen: a timer goes off only if it is pending, a run ends only if one is under way.
pub data Step (poll : ℕ) (s t : LoopState) : Type 0 where
  fires : is_some s.timer ≡ true → t ≡ start_run poll s → Step poll s t
  ends : s.running ≡ true → t ≡ finish_run poll s → Step poll s t
  shuts_down : t ≡ on_application_shutdown s → Step poll s t

pub data Reach (poll : ℕ) : LoopState → LoopState → Type 0 where
  here : {s : LoopState} → Reach poll s s
  next : {s t u : LoopState} → Reach poll s t → Step poll t u → Reach poll s u

pub record IsSound (s : LoopState) : Type 0 where
  pub one_run : s.runs ≡ (if s.running then 1 else 0)
  pub stopped : (s.stopping ≡ false) ⊎ (s.timer ≡ none)
  pub alive : (s.stopping ≡ true) ⊎ (s.running ≡ true) ⊎ (is_some s.timer ≡ true)

Step-IsSound : (poll : ℕ) {s t : LoopState} → Step poll s t → IsSound s → IsSound t
unfolding start_run finish_run on_application_shutdown
Step-IsSound poll (fires h e) v = ground arith
Step-IsSound poll (ends h e) v = ground arith
Step-IsSound poll (shuts_down e) v = ground arith

Reach-IsSound : (poll : ℕ) {s t : LoopState} → Reach poll s t → IsSound s → IsSound t
Reach-IsSound poll here v = v
Reach-IsSound poll (next r st) v = Step-IsSound poll st (Reach-IsSound poll r v)

initial-IsSound : IsSound (on_module_init initial)
unfolding on_module_init
initial-IsSound = ground arith

-- Whatever the order of timers, ends of runs and shutdowns after `onModuleInit`: at most one run of
-- `runOnce` is under way, and one is exactly if `running` is set; no timer is pending once the
-- service is stopping; and until then a run is under way or a timer is pending, so polling never
-- ceases.
pub on_module_init-IsSound :
    (poll : ℕ) (t : LoopState) → Reach poll (on_module_init initial) t → IsSound t
on_module_init-IsSound poll t r = Reach-IsSound poll r initial-IsSound

-- A service that is stopping stays so, and no new run begins.
stopping-Step :
    (poll : ℕ) {s t : LoopState}
    → IsSound s
    → Step poll s t
    → s.stopping ≡ true
    → (t.stopping ≡ true) × (t.runs ≤ s.runs)
unfolding start_run finish_run on_application_shutdown
stopping-Step poll v (fires h e) q = ground arith
stopping-Step poll v (ends h e) q = ground arith
stopping-Step poll v (shuts_down e) q = ground arith
