-- ===== src/Session/Registry.antt =====
-- include/seed/SessionRegistry.h and src/SessionRegistry.cpp, with src/RegistryGameplaySessionPort.cpp:
-- the sessions that are open. A `std::set` is a map to the unit type.
use seed_origin.Base.{
  ℕ, ◌+◌, Bool, true, false, not, ◌&&◌, ◌||◌, List, [], ◌∷◌, map, ltb, leb, ◌==◌, if◌then◌else◌,
  length, is_alnum, all_bytes, ℤ, pos, ◌+ℤ◌, leb_ℤ, ltb_ℤ, eqb_ℤ, int64_max, Map, has, insert,
  erase, ℤ_key,
}
use seed_origin.World.Float.{FloatOps}
use seed_origin.Session.Aliases.{
  IdentityAliasRecord, AliasReviewStatus, AliasStore, export_records, erase_alias, review_alias,
}

pub record SessionInfo : Type 0 where
  pub internal_id : ℤ
  pub alias_id : ℤ
  pub claimed_id : List ℕ
  pub authenticated : Bool

abbrev pub empty_session : SessionInfo
empty_session = record {
  internal_id = pos 0;
  alias_id = pos 0;
  claimed_id = [];
  authenticated = false;
}

-- `aliasStore` points to a store, which the registry changes in place.
pub record SessionRegistry (F : Type 0) : Type 0 where
  pub next_internal_id : ℤ
  pub next_alias_id : ℤ
  pub active_sessions : Map ℤ (Unit {0})
  pub alias_store : AliasStore F

module _ {F : Type 0} where
  -- The loop of `nextAliasIdFor`, from the number that is the next one so far.
  abbrev next_alias_id_from : ℤ → List (IdentityAliasRecord F) → ℤ
  next_alias_id_from next [] = next
  next_alias_id_from next (r ∷ rs) =
      next_alias_id_from
        (if leb_ℤ next r.alias_id && ltb_ℤ r.alias_id (pos int64_max)
          then r.alias_id +ℤ pos 1
          else next)
        rs

  unfoldable pub next_alias_id_for : AliasStore F → ℤ
  next_alias_id_for store = next_alias_id_from (pos 1) (export_records store)

  unfoldable pub new_registry : AliasStore F → SessionRegistry F
  new_registry store = record {
    next_internal_id = pos 1;
    next_alias_id = next_alias_id_for store;
    active_sessions = [];
    alias_store = store;
  }

  unfoldable pub open_authenticated_session :
      SessionRegistry F → ℤ → SessionRegistry F × SessionInfo
  open_authenticated_session r user_id =
      if leb_ℤ user_id (pos 0) || eqb_ℤ r.next_internal_id (pos int64_max)
      then (r, empty_session)
      else (
        record r {
          next_internal_id = r.next_internal_id +ℤ pos 1;
          active_sessions = insert r.next_internal_id tt r.active_sessions;
        },
        record empty_session { internal_id = r.next_internal_id; authenticated = true },
      )

  unfoldable pub logout : SessionRegistry F → ℤ → SessionRegistry F × Bool
  logout r internal_id = (
    record r { active_sessions = erase internal_id r.active_sessions },
    has internal_id r.active_sessions,
  )

  abbrev pub is_active : SessionRegistry F → ℤ → Bool
  is_active r internal_id = has internal_id r.active_sessions

abbrev pub is_claimed_id_char : ℕ → Bool
is_claimed_id_char c = is_alnum c || c == b'_' || c == b'-' || c == b'.'

unfoldable pub is_valid_claimed_id : List ℕ → Bool
is_valid_claimed_id claimed_id =
    not (length claimed_id == 0 || ltb 64 (length claimed_id))
    && all_bytes is_claimed_id_char claimed_id

-- `tolower` in the C locale.
abbrev pub to_lower : ℕ → ℕ
to_lower c = if leb b'A' c && leb c b'Z' then c + 32 else c

unfoldable pub canonical_claimed_id : List ℕ → List ℕ
canonical_claimed_id claimed_id = map to_lower claimed_id

module _ {F : Type 0} where
  abbrev with_store : SessionRegistry F → AliasStore F × Bool → SessionRegistry F × Bool
  with_store r (store, done) = (record r { alias_store = store }, done)

  unfoldable pub forget_claimed_id : SessionRegistry F → List ℕ → SessionRegistry F × Bool
  forget_claimed_id r claimed_id =
      if not (is_valid_claimed_id claimed_id)
      then (r, false)
      else with_store r (erase_alias r.alias_store (canonical_claimed_id claimed_id))

module _ {F : Type 0} (fl : FloatOps F) where
  unfoldable pub record_alias_review :
      SessionRegistry F → List ℕ → AliasReviewStatus → F → SessionRegistry F × Bool
  record_alias_review r claimed_id status confidence =
      if not (is_valid_claimed_id claimed_id)
      then (r, false)
      else with_store r
          (review_alias fl r.alias_store (canonical_claimed_id claimed_id) status confidence)
