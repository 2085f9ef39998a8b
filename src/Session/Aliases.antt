-- ===== src/Session/Aliases.antt =====
-- include/seed/IdentityAliasStore.h and src/IdentityAliasStore.cpp: the names that identities have
-- claimed, kept in memory. `F` is the type of a `float`.
use seed_origin.Base.{
  ℕ, Bool, true, false, ◌||◌, List, [], ◌∷◌, Option, none, some, ltb, ◌==◌, if◌then◌else◌, length,
  ℤ, pos, leb_ℤ, Map, lookup, has, insert, erase, bytes_key,
}
use seed_origin.World.Float.{FloatOps}

pub data AliasReviewStatus : Type 0 where
  unreviewed human_confirmed human_rejected : AliasReviewStatus

pub record IdentityAliasRecord (F : Type 0) : Type 0 where
  pub alias_id : ℤ
  pub canonical_claimed_id : List ℕ
  pub created_tick : ℕ
  pub last_used_tick : ℕ
  pub confidence : F
  pub review_status : AliasReviewStatus

-- `InMemoryIdentityAliasStore`, which holds nothing but `records`.
abbrev pub AliasStore : Type 0 → Type 0
AliasStore F = Map (List ℕ) (IdentityAliasRecord F)

-- The greater of the two, as `touch` takes it.
abbrev later : ℕ → ℕ → ℕ
later a b = if ltb b a then a else b

module _ {F : Type 0} where
  -- `find`; the out-parameter is the content of the result.
  abbrev pub find_alias : AliasStore F → List ℕ → Option (IdentityAliasRecord F)
  find_alias store claimed_id = lookup claimed_id store

  -- `touch` at what the store has under the name.
  abbrev touch_found :
      AliasStore F → List ℕ → ℕ → Option (IdentityAliasRecord F) → AliasStore F × Bool
  touch_found store claimed_id tick none = (store, false)
  touch_found store claimed_id tick (some r) =
      (insert claimed_id (record r { last_used_tick = later tick r.last_used_tick }) store, true)

  unfoldable pub touch : AliasStore F → List ℕ → ℕ → AliasStore F × Bool
  touch store claimed_id tick = touch_found store claimed_id tick (lookup claimed_id store)

  unfoldable pub erase_alias : AliasStore F → List ℕ → AliasStore F × Bool
  erase_alias store claimed_id = (erase claimed_id store, has claimed_id store)

  abbrev pub export_records : AliasStore F → List (IdentityAliasRecord F)
  export_records [] = []
  export_records ((k, r) ∷ store) = r ∷ export_records store

module _ {F : Type 0} (fl : FloatOps F) where
  abbrev pub is_bad_confidence : F → Bool
  is_bad_confidence c = fl.fltb c (fl.lit 0 1) || fl.fltb (fl.lit 1 1) c

  unfoldable pub insert_alias : AliasStore F → IdentityAliasRecord F → AliasStore F × Bool
  insert_alias store r =
      if leb_ℤ r.alias_id (pos 0)
        || length r.canonical_claimed_id == 0
        || is_bad_confidence r.confidence
        || has r.canonical_claimed_id store
      then (store, false)
      else (insert r.canonical_claimed_id r store, true)

  -- `reviewAlias` at what the store has under the name.
  abbrev review_found :
      AliasStore F
      → List ℕ
      → AliasReviewStatus
      → F
      → Option (IdentityAliasRecord F)
      → AliasStore F × Bool
  review_found store claimed_id status confidence none = (store, false)
  review_found store claimed_id status confidence (some r) =
      (insert claimed_id (record r { review_status = status; confidence = confidence }) store, true)

  unfoldable pub review_alias : AliasStore F → List ℕ → AliasReviewStatus → F → AliasStore F × Bool
  review_alias store claimed_id status confidence =
      if is_bad_confidence confidence
      then (store, false)
      else review_found store claimed_id status confidence (lookup claimed_id store)
