-- ===== src/ClientContext/Restores.antt =====
-- What a block with a client leaves of the context variables, and the client that is found in it.
use yt_scheduler.Base.{
  ℕ, nat_eq, ◌&&◌, String, Bool, true, false, not, ◌≡◌, refl, sym, ap, ◌∙◌, inl, inr, Option, none,
  some, ◌==◌, eq_iff, Bool-cases, &&-eq-true, arith,
}
use yt_scheduler.Base.Action.{Action}
use yt_scheduler.ClientContext.{
  Client, Process, Settings, same_client, is_text, enter, exit, first, call_in, choose_func,
  create_client, with_client, found_client, Bound, call_wrapper, with_context, with_yt_client,
}

text_same : (a b : Option String) → is_text a b ≡ true → a ≡ b
text_same none none h = refl
text_same none (some b) h = cc
text_same (some a) none h = cc
text_same (some a) (some b) h = ap (λ (x : String). some x) ((eq_iff a b).0 h)

same_number : (a b : ℕ) → nat_eq a b ≡ true → a ≡ b
same_number a b h = ground arith

-- The client that is set already is the same one.
client_same : (c : Client) (o : Option Client) → same_client c o ≡ true → o ≡ some c
client_same c none h = cc
client_same c (some d) h =
    let texts = is_text c.proxy d.proxy && is_text c.prefix d.prefix in
    let (both, thread) = &&-eq-true texts (nat_eq c.thread_id d.thread_id) h in
    let (proxy, prefix) = &&-eq-true (is_text c.proxy d.proxy) (is_text c.prefix d.prefix) both in
    let p = text_same c.proxy d.proxy proxy in
    let q = text_same c.prefix d.prefix prefix in
    let t = same_number c.thread_id d.thread_id thread in
    λ i. some (record { proxy = sym p i; prefix = sym q i; thread_id = sym t i })

module _ {W : Type 0} where
  -- The variables are as they were.
  abbrev pub SameVars : Process W → Process W → Type 0
  SameVars s s' = (s'.current ≡ s.current) × ((k : String) → s'.client_var k ≡ s.client_var k)

  exit_keeps :
      (b : Bool) (ctx : String) (client : Client) (s s' : Process W)
      → SameVars (enter b ctx client s) s'
      → SameVars s (exit b ctx s s')
  exit_keeps false ctx client s s' h = (refl, h.1)
  exit_keeps true ctx client s s' h = (
    refl,
    λ k. elim (Bool-cases (ctx == k)) [
      | inl e ↦ rw e (ap s.client_var ((eq_iff ctx k).0 e))
      | inr e ↦ rw e (h.1 k ∙ rw e refl)
    ],
  )

  -- Inside a block, the variable of its context holds its client.
  entered :
      (b : Bool) (ctx : String) (client : Client) (s : Process W)
      → not (same_client client (s.client_var ctx)) ≡ b
      → (enter b ctx client s).client_var ctx ≡ some client
  entered true ctx client s h = rw ((eq_iff ctx ctx).1 refl) refl
  entered false ctx client s h = elim (Bool-cases (same_client client (s.client_var ctx))) [
    | inl same ↦ client_same client (s.client_var ctx) same
    | inr other ↦ cc (rw other at h)
  ]

  entered_current :
      (b : Bool) (ctx : String) (client : Client) (s : Process W)
      → ((enter b ctx client s).current ≡ some ctx) × ((enter b ctx client s).world ≡ s.world)
  entered_current true ctx client s = (refl, refl)
  entered_current false ctx client s = (refl, refl)

  exit_world : (b : Bool) (ctx : String) (s s' : Process W) → (exit b ctx s s').world ≡ s'.world
  exit_world true ctx s s' = refl
  exit_world false ctx s s' = refl

  found_set :
      (settings : Settings) (s : Process W) (ctx : String) (client : Client)
      → s.current ≡ some ctx
      → s.client_var ctx ≡ some client
      → found_client settings s ≡ client
  unfolding found_client
  found_set settings s ctx client current set = ground arith

module _ {W A : Type 0} where
  -- A function that leaves the variables as it finds them, whether it returns or raises.
  abbrev pub KeepsVars : Action (Process W) A → Type 0
  KeepsVars f = (s : Process W) → SameVars s (f s).1

  -- So does a block with a client around it.
  pub with_client-KeepsVars :
      (ctx : String) (client : Client) (f : Action (Process W) A)
      → KeepsVars f
      → KeepsVars (with_client ctx client f)
  unfolding with_client
  with_client-KeepsVars ctx client f keeps s =
      let b = not (same_client client (s.client_var ctx)) in
      exit_keeps b ctx client s (f (enter b ctx client s)).1 (keeps (enter b ctx client s))

  -- A method of an object with a context runs with the client that the proxy and the prefix bound to
  -- that context ask for, or the settings where it binds none, in the job that is bound to it or that
  -- runs; and when it returns or raises, the context variables are as before, provided that the
  -- method's body leaves them alone.
  pub with_context-client :
      (settings : Settings) (bound : Bound W A) (func : Client → Action (Process W) A)
      (s : Process W) (ctx : String)
      → bound.func ≡ none
      → first bound.context s.current ≡ some ctx
      → KeepsVars (func (create_client settings bound.proxy bound.prefix))
      → let client = create_client settings bound.proxy bound.prefix in
        let (r, after) = with_context settings (some bound) func s in
        SameVars s after
        × ((s' : Process W) × (s'.current ≡ some ctx)
            × (s'.world ≡ s.world)
            × (r ≡ (func client s').0)
            × (after.world ≡ (func client s').1.world))
  unfolding with_context call_wrapper with_yt_client with_client
  with_context-client settings bound func s ctx unbound job keeps =
      let client = create_client settings bound.proxy bound.prefix in
      let b = not (same_client client (s.client_var ctx)) in
      let e = enter b ctx client s in
      let (current, world) = entered_current b ctx client s in
      let found = found_set settings e ctx client current (entered b ctx client s refl) in
      let core : with_context settings (some bound) func s
          ≡ ((func client e).0, exit b ctx s (func client e).1) =
        rw (job, call_in, unbound, choose_func)
          (ap (λ (c : Client). ((func c e).0, exit b ctx s (func c e).1)) found) in
      rw core (
        exit_keeps b ctx client s (func client e).1 (keeps e),
        (e, current, world, refl, exit_world b ctx s (func client e).1),
      )
