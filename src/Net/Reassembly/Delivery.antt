-- ===== src/Net/Reassembly/Delivery.antt =====
-- A connection that carries valid frames delivers exactly their items, however it is cut.
use seed_origin.Base.{
  ℕ, zero, suc, ◌+◌, ◌≤◌, ◌<◌, ◌≡◌, refl, sym, ap, ◌∙◌, inl, inr, false, List, [], ◌∷◌, ◌++◌, arith,
  ltb, length, take, drop, Result, ok, err, length-append, length-drop, Bool-cases, append_assoc,
  append-nil, take-append_length, drop-append_length, concat, All, subst,
}
use seed_origin.Net.Reassembly.{
  Format, IsFormat, Accumulator, payload_length, initial, Appended, emit, emit_all, waiting,
  take_decoded, frame_size, drain, room, append, feed,
}
use seed_origin.Net.Reassembly.Stream.{
  drain-unroll, drain-append, resume, resume_ok, drain-outcome, append_fits, IsBounded,
  payload_length-append,
}

module _ {C : Type 0} (fmt : Format C) (law : IsFormat fmt) where
  abbrev IsSettled : List ℕ → Type 0
  IsSettled b = drain fmt (length b) b ≡ waiting b

  IsSettled-take_decoded :
      (d : Result C) (rest : List ℕ) (later : Appended C)
      → (take_decoded d rest later).outcome ≡ ok tt
      → (later.outcome ≡ ok tt → IsSettled later.after.buffered)
      → IsSettled (take_decoded d rest later).after.buffered
  IsSettled-take_decoded (ok c) rest later e k = k e
  IsSettled-take_decoded (err m) rest later e k = cc

  -- What is left is less than a frame.
  drain-IsSettled :
      (f : ℕ) (b : List ℕ)
      → length b ≤ f
      → (drain fmt f b).outcome ≡ ok tt
      → IsSettled (drain fmt f b).after.buffered
  unfolding drain
  drain-IsSettled zero [] h e = refl
  drain-IsSettled zero (x ∷ b) h e = elim h [ ]
  drain-IsSettled (suc f) b h e = elim (Bool-cases (ltb (length b) fmt.header_size)) [
    | inl short ↦ rw short (drain-unroll fmt law b ∙ rw short refl)
    | inr long ↦ elim (Bool-cases (ltb fmt.max_payload (payload_length fmt b))) [
      | inl big ↦ absurd (ground arith)
      | inr fits ↦ elim (Bool-cases (ltb (length b) (frame_size fmt b))) [
        | inl part ↦ rw (long, fits, part) (drain-unroll fmt law b ∙ rw (long, fits, part) refl)
        | inr whole ↦
            rw (long, fits, whole)
              (IsSettled-take_decoded (fmt.decode (take (frame_size fmt b) b))
                (drop (frame_size fmt b) b) (drain fmt f (drop (frame_size fmt b) b))
                (rw (long, fits, whole) at e)
                (drain-IsSettled f (drop (frame_size fmt b) b)
                  (omega (arith, length-drop (frame_size fmt b) b))))
      ]
    ]
  ]

  emit_all-outcome : (cs : List C) (r : Appended C) → (emit_all cs r).outcome ≡ r.outcome
  emit_all-outcome [] r = refl
  emit_all-outcome (c ∷ cs) r = emit_all-outcome cs r

  -- No read makes the buffer outgrow the largest frame.
  abbrev pub Fits : Accumulator → List (List ℕ) → Type 0
  Fits a [] = Unit {0}
  Fits a (x ∷ xs) = (length x ≤ room fmt a.buffered) × Fits (append fmt a x).after xs

  resume_outcome :
      (r : Appended C) (more : List ℕ) → (resume fmt law r more).outcome ≡ ok tt → r.outcome ≡ ok tt
  resume_outcome r more h = ground arith

  feed_ok :
      (a : Accumulator) (x : List ℕ) (xs : List (List ℕ)) (r : Appended C)
      → append fmt a x ≡ r
      → r.outcome ≡ ok tt
      → feed fmt a (x ∷ xs) ≡ emit_all r.items (feed fmt r.after xs)
  unfolding feed
  feed_ok a x xs r e h =
      ap (go (append fmt a x)) h' ∙ ap (λ q. emit_all q.items (feed fmt q.after xs)) e
    where
      go : Appended C → Result (Unit {0}) → Appended C
      go q o = elim o [ ok _ ↦ emit_all q.items (feed fmt q.after xs) | err _ ↦ q ]

      h' : (append fmt a x).outcome ≡ ok tt
      h' = ap (λ q. q.outcome) e ∙ h

  feed_nil : (a : Accumulator) → a.failed ≡ false → feed fmt a [] ≡ waiting a.buffered
  unfolding feed
  feed_nil a o = λ i. record {
    after = record { buffered = a.buffered; failed = o i };
    items = [];
    outcome = ok tt;
  }

  feed-drain :
      (a : Accumulator) (xs : List (List ℕ))
      → a.failed ≡ false
      → IsSettled a.buffered
      → Fits a xs
      → (drain fmt (length (a.buffered ++ concat xs)) (a.buffered ++ concat xs)).outcome ≡ ok tt
      → feed fmt a xs ≡ drain fmt (length (a.buffered ++ concat xs)) (a.buffered ++ concat xs)
  feed-drain a [] o s v e =
      feed_nil a o ∙ sym s ∙ ap (λ z. drain fmt (length z) z) (sym (append-nil a.buffered))
  feed-drain a (x ∷ xs) o s v e =
      let b = a.buffered ++ x in
      let r = drain fmt (length b) b in
      let whole : drain fmt (length (a.buffered ++ concat (x ∷ xs))) (a.buffered ++ concat (x ∷ xs))
          ≡ resume fmt law r (concat xs) =
        ap (λ z. drain fmt (length z) z) (sym (append_assoc a.buffered x (concat xs)))
        ∙ drain-append fmt law (length b) b (concat xs) (omega arith) in
      let good : r.outcome ≡ ok tt =
        resume_outcome r (concat xs) (ap (λ q. q.outcome) (sym whole) ∙ e) in
      let one : append fmt a x ≡ r = append_fits fmt law a x o v.0 in
      let rest = resume_ok fmt law r (concat xs) good in
      let fits : Fits r.after xs = subst (λ q. Fits q.after xs) one v.1 in
      feed_ok a x xs r one good
      ∙ ap (emit_all r.items) (
          feed-drain r.after xs (drain-outcome fmt law (length b) b good)
            (drain-IsSettled (length b) b (omega arith) good) fits
            (sym (emit_all-outcome r.items _) ∙ ap (λ q. q.outcome) (sym (whole ∙ rest)) ∙ e))
      ∙ sym (whole ∙ rest)

  nothing-IsSettled : IsSettled []
  unfolding drain
  nothing-IsSettled = refl

  emit_all-waiting :
      (cs : List C)
      → emit_all cs (waiting []) ≡ record { after = initial; items = cs; outcome = ok tt }
  emit_all-waiting [] = refl
  emit_all-waiting (c ∷ cs) = ap (emit c) (emit_all-waiting cs)

  -- A chunk that would take a bounded buffer past the largest frame is refused, whatever it
  -- holds, and so is everything after it.
  pub append_overflow :
      (a : Accumulator) (x y : List ℕ)
      → IsBounded fmt law a
      → a.failed ≡ false
      → fmt.header_size + fmt.max_payload < length a.buffered + length x
      → let r = append fmt a x in
        (r.outcome ≡ err fmt.chunk_text)
        × (r.items ≡ [])
        × ((append fmt r.after y).outcome ≡ err fmt.failed_text)
        × ((append fmt r.after y).after ≡ r.after)
  unfolding append
  append_overflow a x y v o h = ground arith

-- What the encoder gives: `frame` writes the frame of an item, whose payload has `size` bytes, and
-- the decoder of the format reads it back wherever the item is one that the encoder accepts.
pub record IsEncoding {C : Type 0} (fmt : Format C) (frame : C → List ℕ) (size : C → ℕ)
    (IsSendable : C → Type 0) : Type 0 where
  pub length_frame : (c : C) → length (frame c) ≡ fmt.header_size + size c
  pub size_read : (c : C) → IsSendable c → payload_length fmt (frame c) ≡ size c
  pub size_short : (c : C) → IsSendable c → size c ≤ fmt.max_payload
  pub decoded : (c : C) → IsSendable c → fmt.decode (frame c) ≡ ok c

-- The bytes of the frames of these items, one after the other.
unfoldable pub encodings : {C : Type 0} → (C → List ℕ) → List C → List ℕ
encodings frame [] = []
encodings frame (c ∷ cs) = frame c ++ encodings frame cs

module _ {C : Type 0} (fmt : Format C) (law : IsFormat fmt) (frame : C → List ℕ) (size : C → ℕ)
    (IsSendable : C → Type 0) (enc : IsEncoding fmt frame size IsSendable) where
  long : (c : C) (rest : List ℕ) → ltb (length (frame c ++ rest)) fmt.header_size ≡ false
  long c rest = ground (arith, length-append (frame c) rest, enc.length_frame c)

  size_read-append :
      (c : C) (rest : List ℕ) → IsSendable c → payload_length fmt (frame c ++ rest) ≡ size c
  size_read-append c rest v =
      payload_length-append fmt law (frame c) rest (omega (arith, enc.length_frame c))
      ∙ enc.size_read c v

  fits :
      (c : C) (rest : List ℕ)
      → IsSendable c
      → ltb fmt.max_payload (payload_length fmt (frame c ++ rest)) ≡ false
  fits c rest v = rw (size_read-append c rest v) (small (enc.size_short c v))
    where
      small : {m n : ℕ} → m ≤ n → ltb n m ≡ false
      small h = ground arith

  frame_size-frame :
      (c : C) (rest : List ℕ) → IsSendable c → frame_size fmt (frame c ++ rest) ≡ length (frame c)
  frame_size-frame c rest v =
      ap (λ k. fmt.header_size + k) (size_read-append c rest v) ∙ sym (enc.length_frame c)

  whole :
      (c : C) (rest : List ℕ)
      → IsSendable c
      → ltb (length (frame c ++ rest)) (frame_size fmt (frame c ++ rest)) ≡ false
  whole c rest v =
      rw (frame_size-frame c rest v)
        (enough _ (length (frame c)) (length rest) (length-append (frame c) rest))
    where
      enough : (m n k : ℕ) → m ≡ n + k → ltb m n ≡ false
      enough m n k h = ground arith

  -- A complete frame at the head of the buffer is one item.
  drain-frame :
      (c : C) (rest : List ℕ)
      → IsSendable c
      → drain fmt (length (frame c ++ rest)) (frame c ++ rest)
        ≡ emit c (drain fmt (length rest) rest)
  drain-frame c rest v =
      drain-unroll fmt law (frame c ++ rest)
      ∙ rw (long c rest, fits c rest v, whole c rest v)
          (rw (frame_size-frame c rest v) (
            rw (take-append_length (frame c) rest, drop-append_length (frame c) rest)
              (ap (λ d. take_decoded d rest (drain fmt (length rest) rest)) (enc.decoded c v))))

  drain-encodings :
      (cs : List C)
      → All IsSendable cs
      → drain fmt (length (encodings frame cs)) (encodings frame cs) ≡ emit_all cs (waiting [])
  unfolding encodings drain
  drain-encodings [] v = refl
  drain-encodings (c ∷ cs) v =
      drain-frame c (encodings frame cs) v.0 ∙ ap (emit c) (drain-encodings cs v.1)

  -- A connection on which these items are sent, whatever its reads are, yields exactly them.
  pub feed-encodings :
      (cs : List C) (xs : List (List ℕ))
      → All IsSendable cs
      → concat xs ≡ encodings frame cs
      → Fits fmt law initial xs
      → feed fmt initial xs ≡ record { after = initial; items = cs; outcome = ok tt }
  feed-encodings cs xs v e fits =
      let all : drain fmt (length (concat xs)) (concat xs) ≡ emit_all cs (waiting []) =
        ap (λ z. drain fmt (length z) z) e ∙ drain-encodings cs v in
      feed-drain fmt law initial xs refl (nothing-IsSettled fmt law) fits
        (ap (λ q. q.outcome) all ∙ emit_all-outcome fmt law cs (waiting []))
      ∙ all
      ∙ emit_all-waiting fmt law cs
