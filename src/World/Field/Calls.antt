-- ===== src/World/Field/Calls.antt =====
-- Sequences of calls of src/Field.cpp's operations on players, NPCs and sessions, and what the
-- look-ups of identifiers find behind them.
use seed_origin.Base.{
  ℕ, zero, suc, true, false, List, [], ◌∷◌, Option, none, some, is_some, ℤ, pos, ◌+ℤ◌, ◌-ℤ◌, ltb_ℤ,
  eqb_ℤ, eqb_ℤ_iff, lookup, has, ℤ_key, lookup-insert, ◌≡◌, refl, arith, ◌≤ℤ◌, ◌<ℤ◌, ◌≢◌,
  Bool-cases, inl, inr, int64_max,
}
use seed_origin.World.Float.{FloatOps}
use seed_origin.World.Status.{no_status}
use seed_origin.World.Ether.{no_ether, fzero}
use seed_origin.World.Entities.{Player, Npc}
use seed_origin.World.Field.{
  Field, resolve_player_id, has_player, find_player, put_player, put_npc, is_taken, allocate_from,
  allocate_gameplay_id, numbers_left, unset_player, unset_npc, bind_session, unbind_session,
  or_zero, forget_bindings_for_player, player_id_for_session, session_id_for_player,
}
use seed_origin.World.Field.Bindings.{
  IsConsistent, put_player-IsConsistent, put_npc-IsConsistent, unset_npc-IsConsistent,
}
use seed_origin.World.Field.Bindings.Sessions.{
  unset_player-IsConsistent, bind_session-IsConsistent, unbind_session-IsConsistent,
}

-- `Field::Field()`
abbrev pub initial_field : {F : Type 0} → FloatOps F → Field F
initial_field fl = record {
  player_list = [];
  npc_list = [];
  position_queue = [];
  action_queue = [];
  field_status = no_status;
  field_ether = no_ether fl;
  last_ether_hazard = fzero fl;
  next_attack_tick = [];
  next_spell_tick = [];
  npc_respawns = [];
  session_to_player_id = [];
  player_to_session_id = [];
  next_gameplay_id = pos 1;
}

-- A call from outside: what changes who is in the field, and who plays whom.
pub data FieldCall (F : Type 0) : Type 0 where
  set_player : Player F → FieldCall F
  unset_player' : Player F → FieldCall F
  set_npc : Npc F → FieldCall F
  unset_npc' : Npc F → FieldCall F
  bind : ℤ → ℤ → FieldCall F
  unbind : ℤ → FieldCall F

module _ {F : Type 0} where
  abbrev pub call : Field F → FieldCall F → Field F
  call f (set_player p) = (put_player f p).0
  call f (unset_player' p) = (unset_player f p).0
  call f (set_npc n) = (put_npc f n).0
  call f (unset_npc' n) = (unset_npc f n).0
  call f (bind s p) = (bind_session f s p).0
  call f (unbind s) = (unbind_session f s).0

  unfoldable pub calls : Field F → List (FieldCall F) → Field F
  calls f [] = f
  calls f (c ∷ cs) = calls (call f c) cs

  call-IsConsistent : (f : Field F) (c : FieldCall F) → IsConsistent f → IsConsistent (call f c)
  call-IsConsistent f (set_player p) w = put_player-IsConsistent f p w
  call-IsConsistent f (unset_player' p) w = unset_player-IsConsistent f p w
  call-IsConsistent f (set_npc n) w = put_npc-IsConsistent f n w
  call-IsConsistent f (unset_npc' n) w = unset_npc-IsConsistent f n w
  call-IsConsistent f (bind s p) w = bind_session-IsConsistent f s p w
  call-IsConsistent f (unbind s) w = unbind_session-IsConsistent f s w

  calls_from-IsConsistent :
      (f : Field F) (cs : List (FieldCall F)) → IsConsistent f → IsConsistent (calls f cs)
  unfolding calls
  calls_from-IsConsistent f [] w = w
  calls_from-IsConsistent f (c ∷ cs) w =
      calls_from-IsConsistent (call f c) cs (call-IsConsistent f c w)

  initial_field-IsConsistent : (fl : FloatOps F) → IsConsistent (initial_field fl)
  unfolding lookup
  initial_field-IsConsistent fl = record {
    to_session = λ s p h. cc;
    to_player = λ s p h. cc;
    bound_resident = λ s p h. cc;
    session_positive = λ s p h. cc;
    player_positive = λ k h. cc;
    player_key = λ k p h. cc;
    npc_key = λ k n h. cc;
    npc_positive = λ k h. cc;
    disjoint = λ k h. refl;
  }

  -- However players and NPCs are set and removed and sessions bound and unbound in a new field,
  -- sessions and players are bound one to one, bound players are in the field, and identifiers
  -- are positive, carried, and not shared by a player and an NPC.
  pub calls-IsConsistent :
      (fl : FloatOps F) (cs : List (FieldCall F)) → IsConsistent (calls (initial_field fl) cs)
  calls-IsConsistent fl cs =
      calls_from-IsConsistent (initial_field fl) cs (initial_field-IsConsistent fl)

  or_zero_lem :
      (f : Field F) (s : ℤ) (o : Option ℤ)
      → lookup s f.session_to_player_id ≡ o
      → IsConsistent f
      → ltb_ℤ (pos 0) (or_zero o) ≡ has (or_zero o) f.player_list
  or_zero_lem f s none h w = ground (arith, w.player_positive (pos 0))
  or_zero_lem f s (some p) h w = ground (arith, w.bound_resident s p, w.player_positive p)

  -- In a consistent field, having a player and finding one are the same thing for every
  -- identifier.
  pub has_player-find_player :
      (f : Field F) (id : ℤ) → IsConsistent f → has_player f id ≡ is_some (find_player f id)
  unfolding resolve_player_id
  has_player-find_player f id w =
      ground (arith, w.player_positive (pos 0), w.player_positive id, or_zero_lem f id _ refl w)

  -- Where binding a session returns true, the two look-ups then give the session's player and
  -- the player's session.
  pub bind_session_lem :
      (f : Field F) (session_id gameplay_id : ℤ)
      → (bind_session f session_id gameplay_id).1 ≡ true
      → (player_id_for_session (bind_session f session_id gameplay_id).0 session_id ≡ gameplay_id)
        × (session_id_for_player (bind_session f session_id gameplay_id).0 gameplay_id ≡ session_id)
  unfolding bind_session
  bind_session_lem f session_id gameplay_id h =
      let g = forget_bindings_for_player (unbind_session f session_id).0 gameplay_id in
      ground (
        arith,
        lookup-insert session_id session_id gameplay_id g.session_to_player_id,
        lookup-insert gameplay_id gameplay_id session_id g.player_to_session_id,
        eqb_ℤ_iff session_id session_id,
        eqb_ℤ_iff gameplay_id gameplay_id,
      )

  -- The number that the loop finds is free, and later ones follow it.
  allocate_from_free :
      (f : Field F) (left : ℕ) (next : ℤ)
      → pos 0 <ℤ next
      → (allocate_from f left next).1 ≢ pos 0
      → (is_taken f (allocate_from f left next).1 ≡ false)
        × (next ≤ℤ (allocate_from f left next).1)
        × ((allocate_from f left next).1 <ℤ (allocate_from f left next).0)
        × ((allocate_from f left next).1 <ℤ next +ℤ pos left)
  unfolding allocate_from ◌+ℤ◌
  allocate_from_free f zero next h k = ground arith
  allocate_from_free f (suc left) next h k =
      ground (arith, allocate_from_free f left (next +ℤ pos 1))

  -- Where the loop finds none, none is free.
  allocate_from_none :
      (f : Field F) (left : ℕ) (next n : ℤ)
      → pos 0 <ℤ next
      → (allocate_from f left next).1 ≡ pos 0
      → next ≤ℤ n
      → n <ℤ next +ℤ pos left
      → is_taken f n ≡ true
  unfolding allocate_from ◌+ℤ◌
  allocate_from_none f zero next n h k i j = ground arith
  allocate_from_none f (suc left) next n h k i j = elim (Bool-cases (eqb_ℤ n next)) [
    | inl e ↦ ground (arith, eqb_ℤ_iff n next)
    | inr e ↦ ground (arith, allocate_from_none f left (next +ℤ pos 1) n, eqb_ℤ_iff n next)
  ]

  -- An identifier other than 0 that is allocated is nobody's, not below the next one so far,
  -- below the next one afterwards and below the largest 64-bit integer.
  pub allocate_gameplay_id-IsFree :
      (f : Field F)
      → pos 0 <ℤ f.next_gameplay_id
      → (allocate_gameplay_id f).1 ≢ pos 0
      → (is_taken f (allocate_gameplay_id f).1 ≡ false)
        × (f.next_gameplay_id ≤ℤ (allocate_gameplay_id f).1)
        × ((allocate_gameplay_id f).1 <ℤ (allocate_gameplay_id f).0.next_gameplay_id)
        × ((allocate_gameplay_id f).1 <ℤ pos int64_max)
  unfolding allocate_gameplay_id ◌+ℤ◌ ◌-ℤ◌
  allocate_gameplay_id-IsFree f h k =
      ground (arith, allocate_from_free f (numbers_left f.next_gameplay_id) f.next_gameplay_id)

  -- Where allocation returns 0, every number from the next one up to the largest 64-bit
  -- integer, and without it, is taken.
  pub allocate_gameplay_id-exhausted :
      (f : Field F) (n : ℤ)
      → pos 0 <ℤ f.next_gameplay_id
      → (allocate_gameplay_id f).1 ≡ pos 0
      → f.next_gameplay_id ≤ℤ n
      → n <ℤ pos int64_max
      → is_taken f n ≡ true
  unfolding allocate_gameplay_id ◌+ℤ◌ ◌-ℤ◌
  allocate_gameplay_id-exhausted f n h k i j =
      ground (arith, allocate_from_none f (numbers_left f.next_gameplay_id) f.next_gameplay_id n)
