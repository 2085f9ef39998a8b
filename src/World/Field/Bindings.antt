-- ===== src/World/Field/Bindings.antt =====
-- The maps of src/Field.cpp between sessions, players and NPCs: their consistency, and the operations
-- that put players and put and remove NPCs.
pub mod Sessions
use seed_origin.Base.{
  ℕ, Bool, true, false, not, ◌||◌, Option, none, some, ℤ, pos, leb_ℤ, ltb_ℤ, eqb_ℤ_iff, Map, lookup,
  has, insert, erase, ℤ_key, lookup-insert, lookup-erase, ◌≡◌, refl, arith, if_lem,
}
use seed_origin.World.Entities.{Player, Npc}
use seed_origin.World.Field.{
  Field, resolve_player_id, put_player, put_npc, forget_bindings_for_player, forget_binding,
  unbind_from, unset_player, unset_npc, bind_session, unbind_session,
}

-- Sessions and players are bound one to one, bound players are resident, and identifiers are
-- positive, stand for one thing, and are those that players and NPCs carry.
pub record IsConsistent {F : Type 0} (f : Field F) : Type 0 where
  pub to_session :
      (s p : ℤ)
      → lookup s f.session_to_player_id ≡ some p
      → lookup p f.player_to_session_id ≡ some s
  pub to_player :
      (s p : ℤ)
      → lookup p f.player_to_session_id ≡ some s
      → lookup s f.session_to_player_id ≡ some p
  pub bound_resident :
      (s p : ℤ) → lookup s f.session_to_player_id ≡ some p → has p f.player_list ≡ true
  pub session_positive :
      (s p : ℤ) → lookup s f.session_to_player_id ≡ some p → ltb_ℤ (pos 0) s ≡ true
  pub player_positive : (k : ℤ) → has k f.player_list ≡ true → ltb_ℤ (pos 0) k ≡ true
  pub player_key : (k : ℤ) (p : Player F) → lookup k f.player_list ≡ some p → p.id ≡ k
  pub npc_key : (k : ℤ) (n : Npc F) → lookup k f.npc_list ≡ some n → n.id ≡ k
  pub npc_positive : (k : ℤ) → has k f.npc_list ≡ true → ltb_ℤ (pos 0) k ≡ true
  pub disjoint : (k : ℤ) → has k f.player_list ≡ true → has k f.npc_list ≡ false

module _ {F : Type 0} where
  pub put_player-IsConsistent :
      (f : Field F) (p : Player F) → IsConsistent f → IsConsistent (put_player f p).0
  unfolding put_player
  put_player-IsConsistent f p w = record {
    to_session = λ s q h. ground (arith, w.to_session s q);
    to_player = λ s q h. ground (arith, w.to_player s q);
    bound_resident =
        λ s q h. ground (arith, w.bound_resident s q, lookup-insert q p.id p f.player_list);
    session_positive = λ s q h. ground (arith, w.session_positive s q);
    player_positive = λ k h.
        ground (arith, w.player_positive k, lookup-insert k p.id p f.player_list, eqb_ℤ_iff k p.id);
    player_key = λ k q h.
        ground (arith, w.player_key k q, lookup-insert k p.id p f.player_list, eqb_ℤ_iff k p.id);
    npc_key = λ k n h. ground (arith, w.npc_key k n);
    npc_positive = λ k h. ground (arith, w.npc_positive k);
    disjoint =
        λ k h. ground (arith, w.disjoint k, lookup-insert k p.id p f.player_list, eqb_ℤ_iff k p.id);
  }

  pub put_npc-IsConsistent :
      (f : Field F) (n : Npc F) → IsConsistent f → IsConsistent (put_npc f n).0
  unfolding put_npc resolve_player_id
  put_npc-IsConsistent f n w = record {
    to_session = λ s q h. ground (arith, w.to_session s q);
    to_player = λ s q h. ground (arith, w.to_player s q);
    bound_resident = λ s q h. ground (arith, w.bound_resident s q);
    session_positive = λ s q h. ground (arith, w.session_positive s q);
    player_positive = λ k h. ground (arith, w.player_positive k);
    player_key = λ k q h. ground (arith, w.player_key k q);
    npc_key =
        λ k m h. ground (arith, w.npc_key k m, lookup-insert k n.id n f.npc_list, eqb_ℤ_iff k n.id);
    npc_positive = λ k h.
        ground (arith, w.npc_positive k, lookup-insert k n.id n f.npc_list, eqb_ℤ_iff k n.id);
    disjoint = λ k h. ground (
      arith,
      w.disjoint k,
      w.player_positive k,
      lookup-insert k n.id n f.npc_list,
      eqb_ℤ_iff k n.id,
    );
  }

  pub unset_npc-IsConsistent :
      (f : Field F) (n : Npc F) → IsConsistent f → IsConsistent (unset_npc f n).0
  unfolding unset_npc
  unset_npc-IsConsistent f n w = record {
    to_session = λ s q h. ground (arith, w.to_session s q);
    to_player = λ s q h. ground (arith, w.to_player s q);
    bound_resident = λ s q h. ground (arith, w.bound_resident s q);
    session_positive = λ s q h. ground (arith, w.session_positive s q);
    player_positive = λ k h. ground (arith, w.player_positive k);
    player_key = λ k q h. ground (arith, w.player_key k q);
    npc_key =
        λ k m h. ground (arith, w.npc_key k m, lookup-erase k n.id f.npc_list, eqb_ℤ_iff k n.id);
    npc_positive =
        λ k h. ground (arith, w.npc_positive k, lookup-erase k n.id f.npc_list, eqb_ℤ_iff k n.id);
    disjoint =
        λ k h. ground (arith, w.disjoint k, lookup-erase k n.id f.npc_list, eqb_ℤ_iff k n.id);
  }
