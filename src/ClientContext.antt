-- ===== src/ClientContext.antt =====
-- yt_wrapper.py: the client that a call of the YT package goes through. A job's context has a
-- variable for its client; `_current_context` is the context of the job that runs.
pub mod Restores
use yt_scheduler.Base.{
  ℕ, String, Bool, true, false, not, Option, none, some, ◌==◌, ◌&&◌, nat_eq, if◌then◌else◌,
}
use yt_scheduler.Base.Action.{Result, ok, err, Action, runtime_error, type_error}

-- The arguments of `_create_client_cached`, which stand for the client: one with the same arguments
-- is the same object while the cache has it.
pub record Client : Type 0 where
  pub proxy : Option String
  pub prefix : Option String
  pub thread_id : ℕ

-- What is kept by context variables, with the rest of the world; a context is known by the id of its
-- job. `none` is a variable that is not set.
pub record Process (W : Type 0) : Type 0 where
  pub current : Option String
  pub client_var : String → Option Client
  pub world : W

-- The settings that `create_client` reads, and the thread that runs.
pub record Settings : Type 0 where
  pub url : Option String
  pub default_work_dir : String
  pub thread_id : ℕ

abbrev pub is_text : Option String → Option String → Bool
is_text none none = true
is_text (some a) (some b) = a == b
is_text _ _ = false

abbrev pub same_client : Client → Option Client → Bool
same_client c none = false
same_client c (some d) =
    is_text c.proxy d.proxy && is_text c.prefix d.prefix && nat_eq c.thread_id d.thread_id

-- a or b, where an empty text is false
abbrev pub text_or : Option String → Option String → Option String
text_or none b = b
text_or (some a) b = if a == "" then b else some a

-- `ClientAgent.create_client`
unfoldable pub create_client : Settings → Option String → Option String → Client
create_client settings proxy prefix = record {
  proxy = text_or proxy settings.url;
  prefix = text_or prefix (some settings.default_work_dir);
  thread_id = settings.thread_id;
}

-- var.set(value) and var.reset(token), of the client variable of a context
abbrev pub put_client : String → Option Client → (String → Option Client) → String → Option Client
put_client ctx value var k = if ctx == k then value else var k

module _ {W : Type 0} where
  -- `_ClientContextManager._enter`, by the test whether the client is another than the one that is set
  abbrev pub enter : Bool → String → Client → Process W → Process W
  enter false ctx client s = record s { current = some ctx }
  enter true ctx client s = record s {
    current = some ctx;
    client_var = put_client ctx (some client) s.client_var;
  }

  -- `_exit`: the variables that were set go back to what they held.
  abbrev pub exit : Bool → String → Process W → Process W → Process W
  exit false ctx before s = record s { current = before.current }
  exit true ctx before s = record s {
    current = before.current;
    client_var = put_client ctx (before.client_var ctx) s.client_var;
  }

  abbrev pub job_client : Settings → Option String → Process W → Client
  job_client settings none s = record {
    proxy = none;
    prefix = none;
    thread_id = settings.thread_id;
  }
  job_client settings (some ctx) s = elim (s.client_var ctx) [
    | some client ↦ client
    | none ↦ create_client settings none none
  ]

  -- The client that `with_yt_client` finds.
  unfoldable pub found_client : Settings → Process W → Client
  found_client settings s = job_client settings s.current s

module _ {W A : Type 0} where
  -- with _ClientContextManager(ctx, client): body
  unfoldable pub with_client : String → Client → Action (Process W) A → Action (Process W) A
  with_client ctx client body s =
      let client_set = not (same_client client (s.client_var ctx)) in
      let (r, s') = body (enter client_set ctx client s) in (r, exit client_set ctx s s')

  -- `run_with_client`
  abbrev pub run_with_client :
      Settings
      → String
      → Option String
      → Option String
      → Action (Process W) A
      → Action (Process W) A
  run_with_client settings ctx proxy prefix func =
      with_client ctx (create_client settings proxy prefix) func

  -- `with_yt_client` on a function that takes the client; `given` is the argument of a caller who
  -- names one.
  unfoldable pub with_yt_client :
      Settings → Option Client → (Client → Action (Process W) A) → Action (Process W) A
  unfolding found_client
  with_yt_client settings none func s = func (found_client settings s) s
  with_yt_client settings (some client) func s = func client s

  abbrev in_job : Settings → Option String → Action (Process W) A → Client → Action (Process W) A
  in_job settings none func client = func
  in_job settings (some ctx) func client = with_client ctx client func

  -- `with_yt_client` on a function that takes none
  unfoldable pub with_yt_client_around : Settings → Action (Process W) A → Action (Process W) A
  unfolding found_client with_client
  with_yt_client_around settings func s = in_job settings s.current func (found_client settings s) s

-- The keyword arguments of `context_wrapper`.
pub record Bound (W A : Type 0) : Type 0 where
  pub context : Option String
  pub func : Option (Action (Process W) A)
  pub proxy : Option String
  pub prefix : Option String

abbrev pub first {ℓ} : {A : Type ℓ} → Option A → Option A → Option A
first none b = b
first (some a) b = some a

module _ {W A : Type 0} where
  -- `bind`: what is bound already stays.
  unfoldable pub bind : Bound W A → Bound W A → Bound W A
  bind kwargs bound = record {
    context = first bound.context kwargs.context;
    func = first bound.func kwargs.func;
    proxy = first bound.proxy kwargs.proxy;
    prefix = first bound.prefix kwargs.prefix;
  }

  -- The function to call: given and bound, it would be passed twice.
  abbrev pub choose_func :
      Option (Action (Process W) A) → Option (Action (Process W) A) → Result (Action (Process W) A)
  choose_func none none = err type_error
  choose_func none (some g) = ok g
  choose_func (some f) none = ok f
  choose_func (some f) (some g) = err type_error

  abbrev pub call_in :
      Settings → Bound W A → Option String → Option (Action (Process W) A) → Action (Process W) A
  call_in settings bound none func s = (err runtime_error, s)
  call_in settings bound (some ctx) func s = elim (choose_func func bound.func) [
    | err e ↦ (err e, s)
    | ok f ↦ run_with_client settings ctx bound.proxy bound.prefix f s
  ]

  -- A call of the wrapper, with a function or with none.
  unfoldable pub call_wrapper :
      Settings → Bound W A → Option (Action (Process W) A) → Action (Process W) A
  unfolding with_client create_client
  call_wrapper settings bound func s = call_in settings bound (first bound.context s.current) func s

  -- `with_context`: a method runs in the context of its object, if that has one.
  unfoldable pub with_context :
      Settings → Option (Bound W A) → (Client → Action (Process W) A) → Action (Process W) A
  unfolding call_wrapper with_yt_client
  with_context settings none func = with_yt_client settings none func
  with_context settings (some bound) func =
      call_wrapper settings bound (some (with_yt_client settings none func))
