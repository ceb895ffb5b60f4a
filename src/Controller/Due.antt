-- ===== src/Controller/Due.antt =====
-- The first loop of MainLoop ends: a callback adds events for later only.
use paxosme.Prelude.{
  ℕ, zero, suc, ◌<◌, ◌≡◌, refl, ap, ◌∙◌, inl, inr, false, Option, none, some, length, ok, arith,
}
use paxosme.Schedule.{Event, Scheduler, has_timeout, dispatch}
use paxosme.Store.{LogStorage, EntryCodec}
use paxosme.Node.{Node}
use paxosme.Controller.Handlers.{run_event}
use paxosme.Controller.Loop.{dispatch_events}
use paxosme.Schedule.Taken.{dispatch-length, dispatch_early, dispatch_again, Event-cases}
use paxosme.Controller.Quiet.{HasProv, Idle, Idle-trans, run_event-Quiet}

module _ {S : Type 0} ⦃db : LogStorage S⦄ ⦃codec : EntryCodec⦄ where
  stays : (n : Node S) (s : Scheduler) → Idle n (record n { scheduler = s })
  stays n s = record { executed_is = refl; instance_is = refl; learned_is = refl; prov = λ p. p }

  taken_none :
      (fuel : ℕ) (n : Node S)
      → (dispatch n.now n.scheduler).1 ≡ none
      → dispatch_events (suc fuel) n ≡ ok (record n { scheduler = (dispatch n.now n.scheduler).0 })
  unfolding dispatch_events
  taken_none fuel n e = rw (dispatch_events, e) refl

  taken_some :
      (fuel : ℕ) (n n' : Node S) (e : Event)
      → (dispatch n.now n.scheduler).1 ≡ some e
      → run_event e.callback (record n { scheduler = (dispatch n.now n.scheduler).0 }) ≡ ok n'
      → dispatch_events (suc fuel) n ≡ dispatch_events fuel n'
  unfolding dispatch_events
  taken_some fuel n n' e found ran = rw (dispatch_events, found, ran) refl

  -- With an event in front that is not due the loop ends at once.
  early_ends :
      (fuel : ℕ) (n : Node S)
      → 0 < fuel
      → has_timeout n.now n.scheduler.events ≡ false
      → (n' : Node S) × (dispatch_events fuel n ≡ ok n')
        × (n'.now ≡ n.now)
        × Idle n n'
        × ((dispatch n'.now n'.scheduler).1 ≡ none)
  early_ends zero n pos early = absurd (omega arith)
  early_ends (suc fuel) n pos early =
      let nothing : (dispatch n.now n.scheduler).1 ≡ none =
        ap (λ (d : Scheduler × Option Event). d.1) (dispatch_early n.now n.scheduler early) in
      (
        record n { scheduler = (dispatch n.now n.scheduler).0 },
        taken_none fuel n nothing,
        refl,
        stays n (dispatch n.now n.scheduler).0,
        dispatch_again n.now n.scheduler nothing,
      )

  -- On a node with a provider, and with fuel for one more round than the queue has events, the first
  -- loop of MainLoop ends without a fault, at the same time; the
  -- callbacks learn and execute nothing, and Dispatch then returns nothing more.
  pub dispatch_events_ends :
      (fuel : ℕ) (n : Node S)
      → HasProv n
      → length n.scheduler.events < fuel
      → (n' : Node S) × (dispatch_events fuel n ≡ ok n')
        × (n'.now ≡ n.now)
        × Idle n n'
        × ((dispatch n'.now n'.scheduler).1 ≡ none)
  dispatch_events_ends zero n prov enough = absurd (omega arith)
  dispatch_events_ends (suc fuel) n prov enough =
      elim (Event-cases (dispatch n.now n.scheduler).1) [
        | inl nothing ↦ (
          record n { scheduler = (dispatch n.now n.scheduler).0 },
          taken_none fuel n nothing,
          refl,
          stays n (dispatch n.now n.scheduler).0,
          dispatch_again n.now n.scheduler nothing,
        )
        | inr (e, found) ↦
            let n₁ = record n { scheduler = (dispatch n.now n.scheduler).0 } in
            let shorter = dispatch-length n.now n.scheduler found in
            let (n₂, ran, quiet) = run_event-Quiet e.callback n₁ prov in
            let step = taken_some fuel n n₂ e found ran in
            elim quiet.queue [
              | inl same ↦
                  let (n', ends, clock, kept, rest) =
                    dispatch_events_ends fuel n₂ (quiet.idle.prov prov)
                      (omega (arith, shorter, ap length same)) in
                  (
                    n',
                    step ∙ ends,
                    clock ∙ quiet.clock,
                    Idle-trans (Idle-trans (stays n (dispatch n.now n.scheduler).0) quiet.idle)
                        kept,
                    rest,
                  )
              | inr early ↦
                  let (n', ends, clock, kept, rest) =
                    early_ends fuel n₂ (omega (arith, shorter))
                      (ap (λ (t : ℕ). has_timeout t n₂.scheduler.events) quiet.clock ∙ early) in
                  (
                    n',
                    step ∙ ends,
                    clock ∙ quiet.clock,
                    Idle-trans (Idle-trans (stays n (dispatch n.now n.scheduler).0) quiet.idle)
                        kept,
                    rest,
                  )
            ]
      ]
