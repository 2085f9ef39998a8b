-- ===== src/Net/RateLimit.antt =====
-- src/CommandRateLimiter.cpp: how many commands of each type a session may send in one world tick.
pub mod Limit
use seed_origin.Base.{
  ℕ, ◌+◌, Bool, true, false, not, ◌&&◌, ◌||◌, List, [], ◌∷◌, Option, none, some, leb, ◌==◌,
  if◌then◌else◌, length, replicate, get_or, set, ℤ, pos, leb_ℤ, Map, lookup, insert, erase, ℤ_key,
}
use seed_origin.Net.Command.{
  CommandType, login, move, chat, attack, cast_spell, disconnect, request_snapshot, other, code,
}

-- `counters`, whose arrays have 8 elements, and `currentTick`.
pub record CommandRateLimiter : Type 0 where
  pub counters : Map ℤ (List ℕ)
  pub current_tick : ℕ

abbrev pub counts_size : ℕ
counts_size = 8

abbrev pub no_counts : List ℕ
no_counts = replicate counts_size 0

abbrev pub limit_for : CommandType → ℕ
limit_for move = 20
limit_for chat = 4
limit_for attack = 4
limit_for cast_spell = 4
limit_for disconnect = 2
limit_for request_snapshot = 1
limit_for login = 0
limit_for (other n) = 0

abbrev pub counts_or_new : Option (List ℕ) → List ℕ
counts_or_new none = no_counts
counts_or_new (some counts) = counts

-- `counters[sessionId]`
abbrev pub counts_of : CommandRateLimiter → ℤ → List ℕ
counts_of l session_id = counts_or_new (lookup session_id l.counters)

unfoldable pub allow : CommandRateLimiter → ℤ → CommandType → CommandRateLimiter × Bool
allow l session_id type =
    let counts = counts_of l session_id in
    let count = get_or counts (code type) 0 in
    if leb_ℤ session_id (pos 0)
    then (l, false)
    else if leb counts_size (code type) || limit_for type == 0
    then (l, false)
    else if leb (limit_for type) count
    then (record l { counters = insert session_id counts l.counters }, false)
    else (
      record l { counters = insert session_id (set counts (code type) (count + 1)) l.counters },
      true,
    )

abbrev pub fill_zero : Map ℤ (List ℕ) → Map ℤ (List ℕ)
fill_zero [] = []
fill_zero ((k, counts) ∷ m) = (k, no_counts) ∷ fill_zero m

unfoldable pub begin_frame : CommandRateLimiter → ℕ → CommandRateLimiter
begin_frame l world_tick =
    if world_tick == l.current_tick
    then l
    else record { counters = fill_zero l.counters; current_tick = world_tick }

abbrev pub forget_session : CommandRateLimiter → ℤ → CommandRateLimiter
forget_session l session_id = record l { counters = erase session_id l.counters }

abbrev pub no_counters : CommandRateLimiter
no_counters = record { counters = []; current_tick = 0 }
