-- ===== src/Session/Lifecycle/Refinement.antt =====
-- What src/SessionRegistry.cpp and src/SessionLifecycle.cpp promise together, as src/ServerRuntime.cpp
-- calls them: a count of the sessions that were issued, a function from connections to sessions, and
-- the sessions that no connection has.
use seed_origin.Base.{
  ℕ, Bool-cases, true, false, List, [], ◌∷◌, Option, none, some, ==_iff, ℤ, eqb_ℤ_iff, lookup,
  ℕ_key, ℤ_key, lookup-erase, ◌≡◌, inl, inr, refl, ◌∙◌, arith,
}
use seed_origin.Session.Aliases.{AliasStore}
use seed_origin.Session.Registry.{SessionRegistry, new_registry, logout, is_active}
use seed_origin.Session.Lifecycle.{SessionLifecycle, disconnect, disconnect_from, clear}
use seed_origin.Session.Lifecycle.Steps.{
  SessionStep, login, close, stop, session_step, session_steps, Sessions, no_sessions, spec_step,
  spec_steps,
}
use seed_origin.Session.Lifecycle.Clear.{
  All-erase, All-implied, logout_all-inactive, logout_all-bound, logout_all-next, logout_all-left,
}
use seed_origin.Session.Lifecycle.Logins.{IsRow, IsRefined, login-IsRefined}

module _ {F : Type 0} where
  close-IsRefined :
      (bindings : SessionLifecycle) (r : SessionRegistry F) (c : ℕ) (a : Sessions)
      → IsRefined (bindings, r) a
      → (o : Option ℤ) → lookup c bindings ≡ o
      → (let (left, s, done) = disconnect_from bindings r c o in
          IsRefined (left, s) (spec_step a (close c)))
  unfolding logout
  close-IsRefined bindings r c a w none e = record {
    table = λ d. ground (arith, w.table d, w.table c, ==_iff d c);
    known = λ s h. elim (w.known s h) [
      | inl (d, row) ↦ inl (d, ground (arith, w.table c, ==_iff d c))
      | inr rest ↦ inr rest
    ];
    active = λ d s h. ground (arith, w.active d s);
    single = λ d f s h k. ground (arith, w.single d f s);
    numbered = λ d s h. ground (arith, w.numbered d s);
    left_active = w.left_active;
    left_numbered = w.left_numbered;
    apart = λ d s h. ground (arith, w.apart d s);
    rows = w.rows;
    next = w.next;
  }
  close-IsRefined bindings r c a w (some t) e = record {
    table = λ d. ground (arith, w.table d, w.table c, lookup-erase d c bindings);
    known = λ s h.
        let old : is_active r s ≡ true = ground (arith, lookup-erase s t r.active_sessions) in
        elim (w.known s old) [
          | inl (d, row) ↦ inl (
            d,
            ground
                (arith, w.table c, ==_iff d c, lookup-erase s t r.active_sessions, eqb_ℤ_iff s t),
          )
          | inr rest ↦ inr rest
        ];
    active = λ d s h. ground (
      arith,
      w.active d s,
      w.table c,
      lookup-erase s t r.active_sessions,
      eqb_ℤ_iff s t,
      w.single c d s,
      ==_iff d c,
    );
    single = λ d f s h k. ground (arith, w.single d f s);
    numbered = λ d s h. ground (arith, w.numbered d s);
    left_active = λ s h. ground (
      arith,
      w.left_active s,
      w.table c,
      w.apart c s,
      lookup-erase s t r.active_sessions,
      eqb_ℤ_iff s t,
    );
    left_numbered = w.left_numbered;
    apart = λ d s h. ground (arith, w.apart d s);
    rows = All-erase (IsRow a) c bindings w.rows;
    next = w.next;
  }

  stop-IsRefined :
      (bindings : SessionLifecycle) (r : SessionRegistry F) (a : Sessions)
      → IsRefined (bindings, r) a
      → IsRefined (clear bindings r) (spec_step a stop)
  unfolding clear lookup
  stop-IsRefined bindings r a w = record {
    table = λ c. refl;
    known = λ s h. elim (Bool-cases (is_active r s)) [
      | inl on ↦ elim (w.known s on) [
        | inl (c, row) ↦ absurd (ground (arith, logout_all-bound bindings r c s (w.table c ∙ row)))
        | inr rest ↦ inr rest
      ]
      | inr off ↦ absurd (ground (arith, logout_all-inactive bindings r s off))
    ];
    active = λ c s h. cc;
    single = λ c d s h k. cc;
    numbered = λ c s h. cc;
    left_active = λ s h.
        logout_all-left bindings r a.is_left s
          (All-implied (IsRow a) (λ row. a.is_left row.1 ≡ false) bindings (λ row p. p.1) w.rows) h
          (w.left_active s h);
    left_numbered = w.left_numbered;
    apart = λ c s h. cc;
    rows = tt;
    next = logout_all-next bindings r ∙ w.next;
  }

  step-IsRefined :
      (st : SessionLifecycle × SessionRegistry F) (step : SessionStep) (a : Sessions)
      → IsRefined st a
      → IsRefined (session_step st step) (spec_step a step)
  unfolding disconnect
  step-IsRefined (bindings, r) (login c user o p) a w = login-IsRefined bindings r c user o p a w
  step-IsRefined (bindings, r) (close c) a w =
      close-IsRefined bindings r c a w (lookup c bindings) refl
  step-IsRefined (bindings, r) stop a w = stop-IsRefined bindings r a w

  steps-IsRefined :
      (st : SessionLifecycle × SessionRegistry F) (steps : List SessionStep) (a : Sessions)
      → IsRefined st a
      → IsRefined (session_steps st steps) (spec_steps a steps)
  unfolding session_steps spec_steps
  steps-IsRefined st [] a w = w
  steps-IsRefined st (step ∷ steps) a w =
      steps-IsRefined (session_step st step) steps (spec_step a step) (step-IsRefined st step a w)

  -- After every sequence of logins, closed connections and stops with the registry the bindings
  -- and the registry are those that a count of issued sessions, a function from connections to
  -- sessions and a set of left sessions describe: a login that is let through takes the next
  -- number; its session is left, active and bound to no connection, where the connection is 0
  -- or its client is closed, is bound to the connection where the player is placed, and is over
  -- otherwise; each active session is bound to exactly one connection or left.
  pub session_steps-IsRefined :
      (store : AliasStore F) (steps : List SessionStep)
      → IsRefined (session_steps ([], new_registry store) steps) (spec_steps no_sessions steps)
  unfolding new_registry lookup
  session_steps-IsRefined store steps =
      steps-IsRefined ([], new_registry store) steps no_sessions
        (record {
          table = λ c. refl;
          known = λ s h. absurd (ground arith);
          active = λ c s h. cc;
          single = λ c d s h k. cc;
          numbered = λ c s h. cc;
          left_active = λ s h. cc;
          left_numbered = λ s h. cc;
          apart = λ c s h. cc;
          rows = tt;
          next = refl;
        })
