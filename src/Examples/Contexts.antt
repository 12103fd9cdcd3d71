-- ===== src/Examples/Contexts.antt =====
-- A method that runs with the client of a job.
use yt_scheduler.Base.{ℕ, ◌≡◌, refl, none, some}
use yt_scheduler.Base.Action.{Action, ok}
use yt_scheduler.ClientContext.{Client, Process, Settings, Bound, create_client, with_context}
use yt_scheduler.ClientContext.Restores.{SameVars, with_context-client}

abbrev settings : Settings
settings = record { url = some "cluster"; default_work_dir = "//home"; thread_id = 1 }

abbrev bound : Bound ℕ Client
bound = record { context = none; func = none; proxy = some "other"; prefix = none }

abbrev process : Process ℕ
process = record { current = some "job"; client_var = λ k. none; world = 0 }

-- It returns the client that it gets.
abbrev method : Client → Action (Process ℕ) Client
method client s = (ok client, record s { world = 1 })

with_context-client_example :
    let client = create_client settings (some "other") none in
    let (r, after) = with_context settings (some bound) method process in
    SameVars process after
    × ((s' : Process ℕ) × (s'.current ≡ some "job")
        × (s'.world ≡ 0)
        × (r ≡ (method client s').0)
        × (after.world ≡ (method client s').1.world))
with_context-client_example =
    with_context-client settings bound method process "job" refl refl (λ s. (refl, λ k. refl))
