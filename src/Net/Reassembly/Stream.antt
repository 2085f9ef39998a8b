-- ===== src/Net/Reassembly/Stream.antt =====
-- How a stream is cut into chunks does not matter: the rounds of the loop on a longer buffer.
use seed_origin.Base.{
  ℕ, zero, suc, ◌+◌, ◌≤◌, ◌≡◌, refl, sym, ap, ◌∙◌, inl, inr, true, false, List, [], ◌∷◌, ◌++◌,
  arith, ltb, if◌then◌else◌, length, take, drop, Result, ok, err, length-append, length-drop,
  take-append_le, drop-append_le, get_or-append_lt, Bool-cases, append_assoc,
}
use seed_origin.Net.Reassembly.{
  Format, IsFormat, Accumulator, Appended, payload_length, emit, emit_all, rejected, waiting,
  take_decoded, frame_size, drain, room, append,
}

module _ {C : Type 0} (fmt : Format C) (law : IsFormat fmt) where
  -- More rounds than bytes change nothing.
  drain_fuel : (f g : ℕ) (b : List ℕ) → length b ≤ f → length b ≤ g → drain fmt f b ≡ drain fmt g b
  unfolding drain
  drain_fuel zero zero b hf hg = refl
  drain_fuel zero (suc g) b hf hg = ground (arith, law.in_header)
  drain_fuel (suc f) zero b hf hg = ground (arith, law.in_header)
  drain_fuel (suc f) (suc g) b hf hg = ground (
    arith,
    law.in_header,
    length-drop (frame_size fmt b) b,
    drain_fuel f g (drop (frame_size fmt b) b),
  )

  -- What the loop does on, once more bytes have come.
  abbrev pub resume : Appended C → List ℕ → Appended C
  resume r more = elim r.outcome [
    | ok _ ↦
        emit_all r.items (drain fmt (length (r.after.buffered ++ more)) (r.after.buffered ++ more))
    | err e ↦ record r { after = record { buffered = r.after.buffered ++ more; failed = true } }
  ]

  pub payload_length-append :
      (b more : List ℕ)
      → fmt.header_size ≤ length b
      → payload_length fmt (b ++ more) ≡ payload_length fmt b
  payload_length-append b more h = rw (
    get_or-append_lt fmt.length_at b more 0 (omega arith),
    get_or-append_lt (fmt.length_at + 1) b more 0 (omega arith),
    get_or-append_lt (fmt.length_at + 2) b more 0 (omega arith),
    get_or-append_lt (fmt.length_at + 3) b more 0 (omega arith),
  )

  -- One round, by the tests of the loop.
  abbrev round : List ℕ → Appended C → Appended C
  round b later =
      if ltb (length b) fmt.header_size
      then waiting b
      else if ltb fmt.max_payload (payload_length fmt b)
      then rejected b fmt.payload_text
      else if ltb (length b) (frame_size fmt b)
      then waiting b
      else take_decoded (fmt.decode (take (frame_size fmt b) b)) (drop (frame_size fmt b) b) later

  pub drain-unroll :
      (b : List ℕ)
      → drain fmt (length b) b
        ≡ round b (drain fmt (length (drop (frame_size fmt b) b)) (drop (frame_size fmt b) b))
  unfolding drain
  drain-unroll [] = ground (arith, law.in_header)
  drain-unroll (x ∷ xs) = ap (round (x ∷ xs)) (
      drain_fuel (length xs) _ (drop (frame_size fmt (x ∷ xs)) (x ∷ xs))
        (omega (arith, length-drop (frame_size fmt (x ∷ xs)) (x ∷ xs))) (omega arith))

  resume-emit :
      (c : C) (r : Appended C) (more : List ℕ) → resume (emit c r) more ≡ emit c (resume r more)
  resume-emit c r more = ground arith

  module _ (b more : List ℕ) (later later' : Appended C) where
    resume-take_decoded :
        (d : Result C)
        → later' ≡ resume later more
        → take_decoded d (drop (frame_size fmt b) b ++ more) later'
          ≡ resume (take_decoded d (drop (frame_size fmt b) b) later) more
    resume-take_decoded (ok c) e = ap (emit c) e ∙ sym (resume-emit c later more)
    resume-take_decoded (err e') e = refl

    long-append :
        ltb (length b) fmt.header_size ≡ false → ltb (length (b ++ more)) fmt.header_size ≡ false
    long-append h = ground (arith, length-append b more)

    whole-append :
        ltb (length b) (frame_size fmt b) ≡ false
        → ltb (length (b ++ more)) (frame_size fmt b) ≡ false
    whole-append h = ground (arith, length-append b more)

    resume-round :
        drain fmt (length (b ++ more)) (b ++ more) ≡ round (b ++ more) later'
        → (fmt.header_size ≤ length b → frame_size fmt b ≤ length b → later' ≡ resume later more)
        → drain fmt (length (b ++ more)) (b ++ more) ≡ resume (round b later) more
    resume-round u e = elim (Bool-cases (ltb (length b) fmt.header_size)) [
      | inl short ↦ rw short refl
      | inr long ↦
          let same = payload_length-append b more (ground arith) in
          elim (Bool-cases (ltb fmt.max_payload (payload_length fmt b))) [
            | inl big ↦ u ∙ rw (long-append long, long, same, big) refl
            | inr fits ↦ elim (Bool-cases (ltb (length b) (frame_size fmt b))) [
              | inl part ↦ rw (long, fits, part) refl
              | inr whole ↦
                  u
                  ∙ rw (long-append long, long, same, fits, whole, whole-append whole)
                      (rw (take-append_le (frame_size fmt b) b more (ground arith)) (
                        rw (drop-append_le (frame_size fmt b) b more (ground arith)) (
                          resume-take_decoded (fmt.decode (take (frame_size fmt b) b))
                            (e (ground arith) (ground arith)))))
            ]
          ]
    ]

  -- The rounds on a longer buffer are those on its beginning, then those on what was left.
  pub drain-append :
      (f : ℕ) (b more : List ℕ)
      → length b ≤ f
      → drain fmt (length (b ++ more)) (b ++ more) ≡ resume (drain fmt f b) more
  unfolding drain
  drain-append zero [] more h = refl
  drain-append zero (x ∷ b) more h = elim h [ ]
  drain-append (suc f) b more h =
      resume-round b more (drain fmt f (drop (frame_size fmt b) b)) _ (drain-unroll (b ++ more))
        λ long whole. rw (payload_length-append b more long) (
          rw (drop-append_le (frame_size fmt b) b more whole) (
            drain-append f (drop (frame_size fmt b) b) more
              (omega (arith, length-drop (frame_size fmt b) b))))

  -- The buffer only gets shorter.
  pub length-drain : (f : ℕ) (b : List ℕ) → length (drain fmt f b).after.buffered ≤ length b
  unfolding drain
  length-drain zero b = omega arith
  length-drain (suc f) b =
      ground (arith, length-drop (frame_size fmt b) b, length-drain f (drop (frame_size fmt b) b))

  -- A failed state and one that returned false are the same thing.
  pub drain-outcome :
      (f : ℕ) (b : List ℕ) → (drain fmt f b).outcome ≡ ok tt → (drain fmt f b).after.failed ≡ false
  unfolding drain
  drain-outcome zero b h = refl
  drain-outcome (suc f) b h = ground (arith, drain-outcome f (drop (frame_size fmt b) b))

  pub record IsBounded (a : Accumulator) : Type 0 where
    pub bounded : length a.buffered ≤ fmt.header_size + fmt.max_payload

  -- Every chunk leaves the buffer within the largest frame, if it was.
  pub append-IsBounded :
      (a : Accumulator) (bytes : List ℕ) → IsBounded a → IsBounded (append fmt a bytes).after
  unfolding append
  append-IsBounded a bytes v = record {
    bounded = ground (
      arith,
      length-drain (length (a.buffered ++ bytes)) (a.buffered ++ bytes),
      length-append a.buffered bytes,
    );
  }

  pub append_fits :
      (a : Accumulator) (bytes : List ℕ)
      → a.failed ≡ false
      → length bytes ≤ room fmt a.buffered
      → append fmt a bytes ≡ drain fmt (length (a.buffered ++ bytes)) (a.buffered ++ bytes)
  unfolding append
  append_fits a bytes h k = ground arith

  append_ok :
      (a : Accumulator) (bytes : List ℕ)
      → (append fmt a bytes).outcome ≡ ok tt
      → (a.failed ≡ false) × (length bytes ≤ room fmt a.buffered)
  unfolding append
  append_ok a bytes h = ground arith

  pub resume_ok :
      (r : Appended C) (more : List ℕ)
      → r.outcome ≡ ok tt
      → resume r more
        ≡ emit_all r.items
            (drain fmt (length (r.after.buffered ++ more)) (r.after.buffered ++ more))
  resume_ok r more h = ground arith

  -- Two chunks in a row give what one chunk of both gives, where the buffer is bounded, both
  -- fit and the first is accepted.
  pub append-append :
      (a : Accumulator) (x y : List ℕ)
      → IsBounded a
      → length (x ++ y) ≤ room fmt a.buffered
      → (append fmt a x).outcome ≡ ok tt
      → append fmt a (x ++ y)
        ≡ emit_all (append fmt a x).items (append fmt (append fmt a x).after y)
  append-append a x y v fits good =
      let (open', short) = append_ok a x good in
      let b = a.buffered ++ x in
      let r = drain fmt (length b) b in
      let one : append fmt a x ≡ r = append_fits a x open' short in
      let done : r.outcome ≡ ok tt = ap (λ q. q.outcome) (sym one) ∙ good in
      let next : append fmt r.after y
          ≡ drain fmt (length (r.after.buffered ++ y)) (r.after.buffered ++ y) =
        append_fits r.after y (drain-outcome (length b) b done) (
          omega
            (arith, length-drain (length b) b, length-append a.buffered x, length-append x y)) in
      append_fits a (x ++ y) open' fits
      ∙ ap (λ z. drain fmt (length z) z) (sym (append_assoc a.buffered x y))
      ∙ drain-append (length b) b y (omega arith)
      ∙ resume_ok r y done
      ∙ ap (emit_all r.items) (sym next)
      ∙ ap (λ q. emit_all q.items (append fmt q.after y)) (sym one)
