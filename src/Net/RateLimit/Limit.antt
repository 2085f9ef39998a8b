-- ===== src/Net/RateLimit/Limit.antt =====
-- What src/CommandRateLimiter.cpp lets through between two world ticks.
use seed_origin.Base.{
  ℕ, ◌+◌, ◌≤◌, ◌<◌, Bool, true, false, ◌&&◌, List, [], ◌∷◌, ◌==◌, ==_iff, if◌then◌else◌, length,
  length-set, get_or, get_or-set, get_or-replicate, ap, ◌∙◌, set, ℤ, eqb_ℤ, eqb_ℤ_iff, Map, lookup,
  lookup-insert, ℤ_key, ◌≡◌, refl, arith,
}
use seed_origin.Net.Command.{
  CommandType, login, move, chat, attack, cast_spell, disconnect, request_snapshot, other, code,
}
use seed_origin.Net.RateLimit.{
  CommandRateLimiter, counts_size, limit_for, counts_of, counts_or_new, no_counts, fill_zero, allow,
  begin_frame,
}

-- Every array of counters has its 8 elements.
abbrev pub HasCounters : CommandRateLimiter → Type 0
HasCounters l = (s : ℤ) → length (counts_of l s) ≡ counts_size

abbrev pub count_of : CommandRateLimiter → ℤ → CommandType → ℕ
count_of l s t = get_or (counts_of l s) (code t) 0

abbrev bit : Bool → ℕ
bit true = 1
bit false = 0

-- How many of the calls are granted to one session and one type of command.
unfoldable pub granted : CommandRateLimiter → List (ℤ × CommandType) → ℤ → CommandType → ℕ
granted l [] s t = 0
granted l ((r, u) ∷ calls) s t =
    (if eqb_ℤ s r && code t == code u then bit (allow l r u).1 else 0)
    + granted (allow l r u).0 calls s t

allow-HasCounters :
    (l : CommandRateLimiter) (r : ℤ) (u : CommandType) → HasCounters l → HasCounters (allow l r u).0
unfolding allow
allow-HasCounters l r u h s = ground (
  arith,
  h s,
  h r,
  eqb_ℤ_iff s r,
  length-set (counts_of l r) (code u) (count_of l r u + 1),
  lookup-insert s r (counts_of l r) l.counters,
  lookup-insert s r (set (counts_of l r) (code u) (count_of l r u + 1)) l.counters,
)

-- A call adds what it grants to the count, and grants nothing at the limit.
allow_lem :
    (l : CommandRateLimiter) (r s : ℤ) (u t : CommandType)
    → HasCounters l
    → (count_of (allow l r u).0 s t
        ≡ count_of l s t + (if eqb_ℤ s r && code t == code u then bit (allow l r u).1 else 0))
unfolding allow
allow_lem l r s u t h = ground (
  arith,
  h r,
  eqb_ℤ_iff s r,
  ==_iff (code t) (code u),
  get_or-set (counts_of l r) (code u) (code t) (count_of l r u + 1) 0,
  lookup-insert s r (counts_of l r) l.counters,
  lookup-insert s r (set (counts_of l r) (code u) (count_of l r u + 1)) l.counters,
)

-- A type that is limited is determined by its number.
same_limit :
    (t u : CommandType)
    → 0 < limit_for t
    → 0 < limit_for u
    → (code t == code u) ≡ true
    → limit_for u ≡ limit_for t
same_limit login u h k e = ground arith
same_limit (other n) u h k e = ground arith
same_limit move u h k e = ground arith
same_limit chat u h k e = ground arith
same_limit attack u h k e = ground arith
same_limit cast_spell u h k e = ground arith
same_limit disconnect u h k e = ground arith
same_limit request_snapshot u h k e = ground arith

allow_below :
    (l : CommandRateLimiter) (r : ℤ) (u : CommandType)
    → (allow l r u).1 ≡ true
    → count_of l r u < limit_for u
unfolding allow
allow_below l r u h = ground arith

granted_bounded :
    (l : CommandRateLimiter) (calls : List (ℤ × CommandType)) (s : ℤ) (t : CommandType)
    → HasCounters l
    → 0 < limit_for t
    → count_of l s t ≤ limit_for t
    → granted l calls s t + count_of l s t ≤ limit_for t
unfolding granted
granted_bounded l [] s t h p b = omega (arith, b)
granted_bounded l ((r, u) ∷ calls) s t h p b =
    let rest = granted_bounded (allow l r u).0 calls s t (allow-HasCounters l r u h) p in
    ground (arith, rest, allow_lem l r s u t h, allow_below l r u, same_limit t u p, eqb_ℤ_iff s r)

fill_zero-no_counts :
    (m : Map ℤ (List ℕ)) (s : ℤ) → counts_or_new (lookup s (fill_zero m)) ≡ no_counts
unfolding lookup
fill_zero-no_counts [] s = refl
fill_zero-no_counts ((k, counts) ∷ m) s = ground (arith, fill_zero-no_counts m s)

begin_frame-no_counts :
    (l : CommandRateLimiter) (tick : ℕ) (s : ℤ)
    → (tick == l.current_tick) ≡ false
    → counts_of (begin_frame l tick) s ≡ no_counts
unfolding begin_frame
begin_frame-no_counts l tick s h = ground (arith, fill_zero-no_counts l.counters s)

-- After a new world tick has begun, at most as many commands of a limited type are let through
-- for a session as the limit of the type says.
pub granted-begin_frame :
    (l : CommandRateLimiter) (tick : ℕ) (calls : List (ℤ × CommandType)) (s : ℤ) (t : CommandType)
    → (tick == l.current_tick) ≡ false
    → 0 < limit_for t
    → granted (begin_frame l tick) calls s t ≤ limit_for t
granted-begin_frame l tick calls s t h p =
    let fresh : (r : ℤ) → counts_of (begin_frame l tick) r ≡ no_counts =
      λ r. begin_frame-no_counts l tick r h in
    let zero_count : count_of (begin_frame l tick) s t ≡ 0 =
      ap (λ c. get_or c (code t) 0) (fresh s) ∙ get_or-replicate 8 (code t) 0 in
    let bounded =
      granted_bounded (begin_frame l tick) calls s t (λ r. ap length (fresh r)) p
        (omega (arith, zero_count, p)) in
    omega (arith, bounded, zero_count)
