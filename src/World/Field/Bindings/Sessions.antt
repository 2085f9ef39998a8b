-- ===== src/World/Field/Bindings/Sessions.antt =====
-- The bindings of sessions of src/Field.cpp: binding, unbinding, and the removal of a player.
use seed_origin.Base.{
  ℕ, Bool, true, false, not, ◌||◌, Option, none, some, ℤ, pos, leb_ℤ, ltb_ℤ, eqb_ℤ_iff, Map, lookup,
  has, insert, erase, ℤ_key, lookup-insert, lookup-erase, ◌≡◌, refl, arith, if_lem,
}
use seed_origin.World.Entities.{Player}
use seed_origin.World.Field.{
  Field, resolve_player_id, forget_bindings_for_player, forget_binding, unbind_from, unset_player,
  bind_session, unbind_session,
}
use seed_origin.World.Field.Bindings.{IsConsistent}

module _ {F : Type 0} where
  -- Without the binding of a session and its player.
  unlinked-IsConsistent :
      (f : Field F) (s p : ℤ)
      → lookup s f.session_to_player_id ≡ some p
      → IsConsistent f
      → IsConsistent (record f {
        session_to_player_id = erase s f.session_to_player_id;
        player_to_session_id = erase p f.player_to_session_id;
      })
  unlinked-IsConsistent f s p b w = record {
    to_session = λ t q h. ground (
      arith,
      w.to_session t q,
      w.to_session s p,
      w.to_player s q,
      w.to_player t p,
      lookup-erase t s f.session_to_player_id,
      lookup-erase q p f.player_to_session_id,
      eqb_ℤ_iff t s,
      eqb_ℤ_iff q p,
    );
    to_player = λ t q h. ground (
      arith,
      w.to_player t q,
      w.to_session s p,
      w.to_session t p,
      w.to_session s q,
      lookup-erase t s f.session_to_player_id,
      lookup-erase q p f.player_to_session_id,
      eqb_ℤ_iff t s,
      eqb_ℤ_iff q p,
    );
    bound_resident =
        λ t q h. ground (arith, w.bound_resident t q, lookup-erase t s f.session_to_player_id);
    session_positive =
        λ t q h. ground (arith, w.session_positive t q, lookup-erase t s f.session_to_player_id);
    player_positive = w.player_positive;
    player_key = w.player_key;
    npc_key = w.npc_key;
    npc_positive = w.npc_positive;
    disjoint = w.disjoint;
  }

  -- With the binding of a session and a resident player, neither of which is bound.
  linked-IsConsistent :
      (f : Field F) (s p : ℤ)
      → lookup s f.session_to_player_id ≡ none
      → lookup p f.player_to_session_id ≡ none
      → ltb_ℤ (pos 0) s ≡ true
      → has p f.player_list ≡ true
      → IsConsistent f
      → IsConsistent (record f {
        session_to_player_id = insert s p f.session_to_player_id;
        player_to_session_id = insert p s f.player_to_session_id;
      })
  linked-IsConsistent f s p b c d e w = record {
    to_session = λ t q h. ground (
      arith,
      w.to_session t q,
      w.to_session t p,
      lookup-insert t s p f.session_to_player_id,
      lookup-insert q p s f.player_to_session_id,
      eqb_ℤ_iff t s,
      eqb_ℤ_iff q p,
    );
    to_player = λ t q h. ground (
      arith,
      w.to_player t q,
      w.to_player s q,
      lookup-insert t s p f.session_to_player_id,
      lookup-insert q p s f.player_to_session_id,
      eqb_ℤ_iff t s,
      eqb_ℤ_iff q p,
    );
    bound_resident =
        λ t q h. ground (arith, w.bound_resident t q, lookup-insert t s p f.session_to_player_id);
    session_positive = λ t q h.
        ground (
          arith,
          w.session_positive t q,
          lookup-insert t s p f.session_to_player_id,
          eqb_ℤ_iff t s,
        );
    player_positive = w.player_positive;
    player_key = w.player_key;
    npc_key = w.npc_key;
    npc_positive = w.npc_positive;
    disjoint = w.disjoint;
  }

  unbind_from-IsConsistent :
      (f : Field F) (s : ℤ) (o : Option ℤ)
      → lookup s f.session_to_player_id ≡ o
      → IsConsistent f
      → IsConsistent (unbind_from f s o).0
  unbind_from-IsConsistent f s none h w = w
  unbind_from-IsConsistent f s (some p) h w = unlinked-IsConsistent f s p h w

  pub unbind_session-IsConsistent :
      (f : Field F) (session_id : ℤ) → IsConsistent f → IsConsistent (unbind_session f session_id).0
  unfolding unbind_session
  unbind_session-IsConsistent f session_id w =
      if_lem (λ (r : Field F × Bool). IsConsistent r.0) (leb_ℤ session_id (pos 0)) (f, false) _
        (λ h. w) (λ h. unbind_from-IsConsistent f session_id _ refl w)

  forget_binding-IsConsistent :
      (f : Field F) (p : ℤ) (o : Option ℤ)
      → lookup p f.player_to_session_id ≡ o
      → IsConsistent f
      → IsConsistent (forget_binding f p o)
  forget_binding-IsConsistent f p none h w = w
  forget_binding-IsConsistent f p (some s) h w = unlinked-IsConsistent f s p (w.to_player s p h) w

  pub forget_bindings-IsConsistent :
      (f : Field F) (p : ℤ) → IsConsistent f → IsConsistent (forget_bindings_for_player f p)
  unfolding forget_bindings_for_player
  forget_bindings-IsConsistent f p w = forget_binding-IsConsistent f p _ refl w

  -- What `forgetBindingsForPlayer` leaves unbound.
  forget_binding_lem :
      (f : Field F) (s p : ℤ) (o : Option ℤ)
      → lookup p f.player_to_session_id ≡ o
      → lookup s f.session_to_player_id ≡ none
      → (lookup p (forget_binding f p o).player_to_session_id ≡ none)
        × (lookup s (forget_binding f p o).session_to_player_id ≡ none)
        × ((forget_binding f p o).player_list ≡ f.player_list)
  forget_binding_lem f s p none h k = (h, k, refl)
  forget_binding_lem f s p (some t) h k = ground (
    arith,
    lookup-erase p p f.player_to_session_id,
    lookup-erase s t f.session_to_player_id,
    eqb_ℤ_iff p p,
  )

  unbind_from_lem :
      (f : Field F) (s : ℤ) (o : Option ℤ)
      → lookup s f.session_to_player_id ≡ o
      → (lookup s (unbind_from f s o).0.session_to_player_id ≡ none)
        × ((unbind_from f s o).0.player_list ≡ f.player_list)
  unbind_from_lem f s none h = (h, refl)
  unbind_from_lem f s (some p) h =
      ground (arith, lookup-erase s s f.session_to_player_id, eqb_ℤ_iff s s)

  unbind_session_lem :
      (f : Field F) (s : ℤ)
      → ltb_ℤ (pos 0) s ≡ true
      → (lookup s (unbind_session f s).0.session_to_player_id ≡ none)
        × ((unbind_session f s).0.player_list ≡ f.player_list)
  unfolding unbind_session
  unbind_session_lem f s h =
      if_lem
        (λ (r : Field F × Bool).
          (lookup s r.0.session_to_player_id ≡ none) × (r.0.player_list ≡ f.player_list))
        (leb_ℤ s (pos 0)) (f, false) _ (λ k. ground arith) (λ k. unbind_from_lem f s _ refl)

  -- The new field of `bindSession` where its guards pass.
  bound-IsConsistent :
      (f : Field F) (s p : ℤ)
      → ltb_ℤ (pos 0) s ≡ true
      → has p f.player_list ≡ true
      → IsConsistent f
      → let g = forget_bindings_for_player (unbind_session f s).0 p in
        IsConsistent (record g {
          session_to_player_id = insert s p g.session_to_player_id;
          player_to_session_id = insert p s g.player_to_session_id;
        })
  unfolding forget_bindings_for_player
  bound-IsConsistent f s p h k w =
      let g = (unbind_session f s).0 in
      let (unbound, same) = unbind_session_lem f s h in
      let (free, still_unbound, still_same) = forget_binding_lem g s p _ refl unbound in
      linked-IsConsistent (forget_bindings_for_player g p) s p still_unbound free h
        (ground (arith, same, still_same, k))
        (forget_bindings-IsConsistent g p (unbind_session-IsConsistent f s w))

  pub bind_session-IsConsistent :
      (f : Field F) (session_id gameplay_id : ℤ)
      → IsConsistent f
      → IsConsistent (bind_session f session_id gameplay_id).0
  unfolding bind_session
  bind_session-IsConsistent f session_id gameplay_id w =
      if_lem (λ (r : Field F × Bool). IsConsistent r.0)
        (leb_ℤ session_id (pos 0) || leb_ℤ gameplay_id (pos 0)) (f, false) _ (λ h. w)
        (λ h.
          if_lem (λ (r : Field F × Bool). IsConsistent r.0) (not (has gameplay_id f.player_list))
            (f, false) _ (λ k. w)
            (λ k. bound-IsConsistent f session_id gameplay_id (ground arith) (ground arith) w))

  -- Without a player that no session is bound to, and with other cooldowns.
  removed-IsConsistent :
      (f : Field F) (p : ℤ) (attack spell : Map ℤ ℕ)
      → lookup p f.player_to_session_id ≡ none
      → IsConsistent f
      → IsConsistent (record f {
        next_attack_tick = attack;
        next_spell_tick = spell;
        player_list = erase p f.player_list;
      })
  removed-IsConsistent f p attack spell h w = record {
    to_session = λ t q k. w.to_session t q k;
    to_player = λ t q k. w.to_player t q k;
    bound_resident = λ t q k. ground (
      arith,
      w.bound_resident t q,
      w.to_session t q,
      lookup-erase q p f.player_list,
      eqb_ℤ_iff q p,
    );
    session_positive = λ t q k. w.session_positive t q k;
    player_positive = λ q k. ground (arith, w.player_positive q, lookup-erase q p f.player_list);
    player_key = λ q r k. ground (arith, w.player_key q r, lookup-erase q p f.player_list);
    npc_key = λ q n k. w.npc_key q n k;
    npc_positive = λ q k. w.npc_positive q k;
    disjoint = λ q k. ground (arith, w.disjoint q, lookup-erase q p f.player_list);
  }

  forget_binding_free :
      (f : Field F) (p : ℤ) (o : Option ℤ)
      → lookup p f.player_to_session_id ≡ o
      → lookup p (forget_binding f p o).player_to_session_id ≡ none
  forget_binding_free f p none h = h
  forget_binding_free f p (some t) h =
      ground (arith, lookup-erase p p f.player_to_session_id, eqb_ℤ_iff p p)

  pub unset_player-IsConsistent :
      (f : Field F) (p : Player F) → IsConsistent f → IsConsistent (unset_player f p).0
  unfolding unset_player forget_bindings_for_player
  unset_player-IsConsistent f p w =
      let id = resolve_player_id f p.id in
      if_lem (λ (r : Field F × Bool). IsConsistent r.0) (leb_ℤ id (pos 0)) (f, false) _ (λ h. w)
        (λ h.
          removed-IsConsistent (forget_bindings_for_player f id) id _ _
            (forget_binding_free f id _ refl) (forget_bindings-IsConsistent f id w))
