-- ===== src/Session/Lifecycle/Clear.antt =====
-- What `SessionLifecycle::clear` of src/SessionLifecycle.cpp does to the sessions that are open.
use seed_origin.Base.{
  ℕ, Bool, true, false, [], ◌∷◌, some, ◌==◌, ℤ, eqb_ℤ_iff, lookup, insert, erase, ℕ_key, ℤ_key,
  lookup-erase, All, if_lem, ◌≡◌, refl, arith,
}
use seed_origin.Session.Registry.{SessionRegistry, logout, is_active}
use seed_origin.Session.Lifecycle.{SessionLifecycle, logout_all}

module _ (P : ℕ × ℤ → Type 0) where
  pub All-insert :
      (c : ℕ) (s : ℤ) (bindings : SessionLifecycle)
      → P (c, s)
      → All P bindings
      → All P (insert c s bindings)
  unfolding insert
  All-insert c s [] h a = (h, tt)
  All-insert c s ((d, t) ∷ bindings) h (b, a) =
      if_lem (All P) (c == d) _ _ (λ e. (h, a))
        (λ e.
          if_lem (All P) (ℕ_key.less c d) _ _ (λ l. (h, (b, a)))
            (λ l. (b, All-insert c s bindings h a)))

  pub All-erase : (c : ℕ) (bindings : SessionLifecycle) → All P bindings → All P (erase c bindings)
  unfolding erase
  All-erase c [] a = tt
  All-erase c ((d, t) ∷ bindings) (b, a) =
      if_lem (All P) (c == d) _ _ (λ e. All-erase c bindings a) (λ e. (b, All-erase c bindings a))

  pub All-implied :
      (Q : ℕ × ℤ → Type 0) (bindings : SessionLifecycle)
      → ((row : ℕ × ℤ) → P row → Q row)
      → All P bindings
      → All Q bindings
  All-implied Q [] h a = tt
  All-implied Q (row ∷ bindings) h (p, a) = (h row p, All-implied Q bindings h a)

module _ {F : Type 0} where
  -- `clear` ends the sessions of the bindings, opens none and issues none.
  pub logout_all-inactive :
      (bindings : SessionLifecycle) (r : SessionRegistry F) (s : ℤ)
      → is_active r s ≡ false
      → is_active (logout_all bindings r) s ≡ false
  unfolding logout_all logout
  logout_all-inactive [] r s h = h
  logout_all-inactive ((c, t) ∷ bindings) r s h =
      logout_all-inactive bindings (logout r t).0 s
        (ground (arith, lookup-erase s t r.active_sessions))

  pub logout_all-bound :
      (bindings : SessionLifecycle) (r : SessionRegistry F) (c : ℕ) (s : ℤ)
      → lookup c bindings ≡ some s
      → is_active (logout_all bindings r) s ≡ false
  unfolding logout_all logout lookup
  logout_all-bound [] r c s h = cc
  logout_all-bound ((d, t) ∷ bindings) r c s h = ground (
    arith,
    logout_all-bound bindings (logout r t).0 c s,
    logout_all-inactive bindings (logout r t).0 s,
    lookup-erase s t r.active_sessions,
    eqb_ℤ_iff s t,
  )

  pub logout_all-next :
      (bindings : SessionLifecycle) (r : SessionRegistry F)
      → (logout_all bindings r).next_internal_id ≡ r.next_internal_id
  unfolding logout_all logout
  logout_all-next [] r = refl
  logout_all-next ((c, t) ∷ bindings) r = logout_all-next bindings (logout r t).0

  -- It ends no session that is in no row.
  pub logout_all-left :
      (bindings : SessionLifecycle) (r : SessionRegistry F) (is_left : ℤ → Bool) (s : ℤ)
      → All (λ row. is_left row.1 ≡ false) bindings
      → is_left s ≡ true
      → is_active r s ≡ true
      → is_active (logout_all bindings r) s ≡ true
  unfolding logout_all logout
  logout_all-left [] r is_left s a l h = h
  logout_all-left ((c, t) ∷ bindings) r is_left s (b, a) l h =
      logout_all-left bindings (logout r t).0 is_left s a l
        (ground (arith, lookup-erase s t r.active_sessions, eqb_ℤ_iff s t))
