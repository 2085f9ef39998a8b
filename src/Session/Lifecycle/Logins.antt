-- ===== src/Session/Lifecycle/Logins.antt =====
-- What a login of src/ServerRuntime.cpp does to the sessions of src/SessionRegistry.cpp and the
-- bindings of src/SessionLifecycle.cpp, against the abstract state.
use seed_origin.Base.{
  ℕ, ◌+◌, Bool, true, false, some, ==_iff, ℤ, pos, ◌+ℤ◌, ◌≤ℤ◌, ◌<ℤ◌, eqb_ℤ_iff, lookup, insert,
  erase, ℕ_key, ℤ_key, lookup-insert, lookup-erase, All, ◌≡◌, ◌⊎◌, inl, inr, arith,
}
use seed_origin.Session.Registry.{SessionRegistry, open_authenticated_session, logout, is_active}
use seed_origin.Session.Lifecycle.{SessionLifecycle, bind, disconnect}
use seed_origin.Session.Lifecycle.Steps.{login, login_session, Sessions, spec_step}
use seed_origin.Session.Lifecycle.Clear.{All-insert, All-erase, All-implied}

-- A row of the table has a session that was issued and is not left.
abbrev pub IsRow : Sessions → ℕ × ℤ → Type 0
IsRow a row = (row.1 ≤ℤ pos a.issued) × (a.is_left row.1 ≡ false)

-- The server's state stands for the specification's: it has the same table, its open sessions are
-- those in the table and those that are left, which are others, and no two connections have the
-- same session.
pub record IsRefined {F : Type 0} (st : SessionLifecycle × SessionRegistry F) (a : Sessions)
    : Type 0 where
  pub table : (c : ℕ) → lookup c st.0 ≡ a.session_of c
  pub known :
      (s : ℤ)
      → is_active st.1 s ≡ true
      → ((c : ℕ) × (a.session_of c ≡ some s)) ⊎ (a.is_left s ≡ true)
  pub active : (c : ℕ) (s : ℤ) → a.session_of c ≡ some s → is_active st.1 s ≡ true
  pub single : (c d : ℕ) (s : ℤ) → a.session_of c ≡ some s → a.session_of d ≡ some s → c ≡ d
  pub numbered : (c : ℕ) (s : ℤ) → a.session_of c ≡ some s → (pos 0 <ℤ s) × (s ≤ℤ pos a.issued)
  pub left_active : (s : ℤ) → a.is_left s ≡ true → is_active st.1 s ≡ true
  pub left_numbered : (s : ℤ) → a.is_left s ≡ true → (pos 0 <ℤ s) × (s ≤ℤ pos a.issued)
  pub apart : (c : ℕ) (s : ℤ) → a.session_of c ≡ some s → a.is_left s ≡ false
  pub rows : All (IsRow a) st.0
  pub next : st.1.next_internal_id ≡ pos (a.issued + 1)

-- A login takes no session from the table or from those that are left.
kept :
    (a : Sessions) (c d : ℕ) (user s : ℤ) (o p : Bool)
    → a.session_of d ≡ some s
    → (spec_step a (login c user o p)).session_of d ≡ some s
kept a c d user s o p h = ground (arith, ==_iff d c)

kept_left :
    (a : Sessions) (c : ℕ) (user s : ℤ) (o p : Bool)
    → a.is_left s ≡ true
    → (spec_step a (login c user o p)).is_left s ≡ true
kept_left a c user s o p h = ground arith

kept_rows :
    (a : Sessions) (c : ℕ) (user : ℤ) (o p : Bool) (row : ℕ × ℤ)
    → IsRow a row
    → IsRow (spec_step a (login c user o p)) row
kept_rows a c user o p row h = ground (arith, h.0, h.1, eqb_ℤ_iff row.1 (pos (a.issued + 1)))

module _ {F : Type 0} where
  -- A login opens no session but one for its connection or one that is left.
  opened_known :
      (bindings : SessionLifecycle) (r : SessionRegistry F) (c : ℕ) (user : ℤ) (o p : Bool)
      (a : Sessions)
      → IsRefined (bindings, r) a
      → (s : ℤ) → is_active (login_session bindings r c user o p).1 s ≡ true
      → (is_active r s ≡ true)
        ⊎ ((spec_step a (login c user o p)).session_of c ≡ some s)
        ⊎ ((spec_step a (login c user o p)).is_left s ≡ true)
  unfolding login_session open_authenticated_session bind disconnect logout ◌+ℤ◌
  opened_known bindings r c user o p a w s h =
      let n = pos (a.issued + 1) in
      ground (
        arith,
        w.table c,
        w.next,
        lookup-insert s n tt r.active_sessions,
        lookup-insert c c n bindings,
        lookup-erase s n (insert n tt r.active_sessions),
        eqb_ℤ_iff s n,
      )

  -- A login leaves the table, or makes a row of a session that is not left, which it may take away
  -- again.
  opened_table :
      (bindings : SessionLifecycle) (r : SessionRegistry F) (c : ℕ) (user : ℤ) (o p : Bool)
      (a : Sessions)
      → IsRefined (bindings, r) a
      → let n = pos (a.issued + 1) in
        let after = (login_session bindings r c user o p).0 in
        (after ≡ bindings)
        ⊎ IsRow (spec_step a (login c user o p)) (c, n)
          × ((after ≡ insert c n bindings) ⊎ (after ≡ erase c (insert c n bindings)))
  unfolding login_session open_authenticated_session bind disconnect logout ◌+ℤ◌
  opened_table bindings r c user o p a w =
      let n = pos (a.issued + 1) in
      ground (arith, w.table c, w.next, w.left_numbered n, lookup-insert c c n bindings)

  opened_rows :
      (bindings : SessionLifecycle) (r : SessionRegistry F) (c : ℕ) (user : ℤ) (o p : Bool)
      (a : Sessions)
      → IsRefined (bindings, r) a
      → All (IsRow (spec_step a (login c user o p))) (login_session bindings r c user o p).0
  opened_rows bindings r c user o p a w =
      let P : ℕ × ℤ → Type 0 = IsRow (spec_step a (login c user o p)) in
      let n = pos (a.issued + 1) in
      let old = All-implied (IsRow a) P bindings (λ row h. kept_rows a c user o p row h) w.rows in
      elim (opened_table bindings r c user o p a w) [
        | inl e ↦ rw (e) old
        | inr (new, inl e) ↦ rw (e) (All-insert P c n bindings new old)
        | inr (new, inr e) ↦
            rw (e) (All-erase P c (insert c n bindings) (All-insert P c n bindings new old))
      ]

  pub login-IsRefined :
      (bindings : SessionLifecycle) (r : SessionRegistry F) (c : ℕ) (user : ℤ) (o p : Bool)
      (a : Sessions)
      → IsRefined (bindings, r) a
      → IsRefined (login_session bindings r c user o p) (spec_step a (login c user o p))
  unfolding login_session open_authenticated_session bind disconnect logout ◌+ℤ◌
  login-IsRefined bindings r c user o p a w =
      let n = pos (a.issued + 1) in
      let opened = insert n tt r.active_sessions in
      record {
        table = λ d. ground (
          arith,
          w.table d,
          w.table c,
          w.next,
          lookup-insert d c n bindings,
          lookup-insert c c n bindings,
          lookup-erase d c (insert c n bindings),
          ==_iff d c,
        );
        known = λ s h. elim (opened_known bindings r c user o p a w s h) [
          | inl old ↦ elim (w.known s old) [
            | inl (d, row) ↦ inl (d, kept a c d user s o p row)
            | inr rest ↦ inr (kept_left a c user s o p rest)
          ]
          | inr (inl row) ↦ inl (c, row)
          | inr (inr rest) ↦ inr rest
        ];
        active = λ d s h. ground (
          arith,
          w.table c,
          w.next,
          w.active d s,
          w.numbered d s,
          lookup-insert s n tt r.active_sessions,
          lookup-insert c c n bindings,
          lookup-erase s n opened,
          ==_iff d c,
          eqb_ℤ_iff s n,
        );
        single = λ d e s h k.
            ground (arith, w.single d e s, w.numbered d s, w.numbered e s, ==_iff d c, ==_iff e c);
        numbered = λ d s h. ground (arith, w.numbered d s);
        left_active = λ s h. ground (
          arith,
          w.table c,
          w.next,
          w.left_active s,
          w.left_numbered s,
          lookup-insert s n tt r.active_sessions,
          lookup-insert c c n bindings,
          lookup-erase s n opened,
          eqb_ℤ_iff s n,
        );
        left_numbered = λ s h. ground (arith, w.left_numbered s, eqb_ℤ_iff s n);
        apart = λ d s h.
            ground
              (arith, w.apart d s, w.numbered d s, w.left_numbered s, ==_iff d c, eqb_ℤ_iff s n);
        rows = opened_rows bindings r c user o p a w;
        next = ground (arith, w.next, w.table c, lookup-insert c c n bindings);
      }
