-- ===== src/World/MovementText.antt =====
-- The texts of src/ClientInputSequence.cpp: the payload of a move command, and what the updates say
-- of a movement to its owner and to the others.
use seed_origin.Base.{
  ℕ, Bool, false, not, ◌&&◌, ◌||◌, List, [], ◌∷◌, ◌++◌, Option, none, some, is_some, ◌==◌,
  if◌then◌else◌, length, bytes_eq, codes, ℤ, pos, leb_ℤ, Result, ok, err, and_then, split_at,
  strip_prefix, after_text, up_to, skip_space, is_blank, read_uint64, read_int64, read_char,
}
use seed_origin.World.Float.{FloatOps, FloatText}
use seed_origin.World.InputQueue.{to_string}

pub record MovementAck (F : Type 0) : Type 0 where
  pub session_id : ℤ
  pub x : F
  pub y : F
  pub z : F
  pub world_tick : ℕ
  pub last_processed_input_sequence : ℕ

pub record PublicMovementPose (F : Type 0) : Type 0 where
  pub session_id : ℤ
  pub x : F
  pub y : F
  pub z : F

-- A number with nothing but white space behind it.
abbrev whole {ℓ} : {A : Type ℓ} → Option (A × List ℕ) → Option A
whole none = none
whole (some (value, rest)) = if is_blank rest then some value else none

abbrev begins_with_minus : List ℕ → Bool
begins_with_minus [] = false
begins_with_minus (b ∷ bs) = b == b'-'

unfoldable pub parse_uint64 : List ℕ → Option ℕ
parse_uint64 text =
    if length text == 0 || begins_with_minus text then none else whole (read_uint64 text)

unfoldable pub parse_int64 : List ℕ → Option ℤ
parse_int64 text = whole (read_int64 text)

abbrev non_empty : List ℕ → Option (List ℕ)
non_empty [] = none
non_empty (b ∷ bs) = some (b ∷ bs)

-- The value behind the first `key:`, up to the next semicolon.
unfoldable pub parse_ack_field : List ℕ → List ℕ → Option (List ℕ)
parse_ack_field fields key =
    and_then (after_text (key ++ b':' ∷ []) fields) (λ rest. non_empty (up_to b';' rest))

unfoldable pub parse_movement_event_session : List ℕ → Option ℤ
parse_movement_event_session payload =
    and_then (strip_prefix (codes "movement=session:") payload) (λ rest.
      and_then (parse_int64 (up_to b';' rest))
        (λ session_id. if leb_ℤ session_id (pos 0) then none else some session_id))

-- The number in front of a colon, and the deltas behind it.
abbrev sequenced : Option ℕ → List ℕ → Option (ℕ × List ℕ)
sequenced none deltas = none
sequenced (some n) deltas = if n == 0 then none else some (n, deltas)

-- Whether the text before the first colon has no comma decides if that colon ends a number.
abbrev split_sequence : List ℕ → Option (List ℕ × List ℕ) → Option (ℕ × List ℕ)
split_sequence payload none = some (0, payload)
split_sequence payload (some (before, deltas)) =
    if is_some (split_at b',' before)
    then some (0, payload)
    else sequenced (parse_uint64 before) deltas

module _ {F : Type 0} (fl : FloatOps F) (ft : FloatText F) where
  -- `>>` into a `float`.
  abbrev pub read_float : List ℕ → Option (F × List ℕ)
  read_float text = ft.read (skip_space text)

  unfoldable pub parse_finite_float : List ℕ → Option F
  parse_finite_float text =
      and_then (whole (read_float text)) (λ value. if fl.is_finite value then some value else none)

  -- `input >> value >> separator` with a comma for the separator.
  abbrev read_before_comma : List ℕ → Option (F × List ℕ)
  read_before_comma text =
      and_then (read_float text)
        (λ r. and_then (read_char r.1) (λ c. if c.0 == b',' then some (r.0, c.1) else none))

  abbrev parse_deltas : List ℕ → Option (F × F × F)
  parse_deltas text = and_then (read_before_comma text) (λ a. and_then (read_before_comma a.1) (λ b.
      and_then (read_float b.1) (λ c.
        if is_blank c.1 && (fl.is_finite a.0 && fl.is_finite b.0 && fl.is_finite c.0)
        then some (a.0, b.0, c.0)
        else none)))

  -- The client's number and the three deltas.
  unfoldable pub parse_move_payload : List ℕ → Option (ℕ × F × F × F)
  parse_move_payload payload =
      and_then (split_sequence payload (split_at b':' payload))
        (λ s. and_then (parse_deltas s.1) (λ d. some (s.0, d.0, d.1, d.2)))

  abbrev pub is_finite_pose : F → F → F → Bool
  is_finite_pose x y z = fl.is_finite x && fl.is_finite y && fl.is_finite z

  -- `;x:…;y:…` and the rest, which two of the texts share.
  abbrev pub ack_fields : MovementAck F → List ℕ
  ack_fields ack =
      codes ";x:"
      ++ (ft.show ack.x
          ++ (codes ";y:"
              ++ (ft.show ack.y
                  ++ (codes ";z:"
                      ++ (ft.show ack.z
                          ++ (codes ";worldTick:"
                              ++ (to_string (pos ack.world_tick)
                                  ++ (codes ";lastProcessedInputSequence:"
                                      ++ to_string (pos ack.last_processed_input_sequence)))))))))

  unfoldable pub format_movement_ack : MovementAck F → Result (List ℕ)
  format_movement_ack ack =
      if leb_ℤ ack.session_id (pos 0) || not (is_finite_pose ack.x ack.y ack.z)
      then err "movement ack contains invalid state"
      else ok (codes "movementAck=session:" ++ (to_string ack.session_id ++ ack_fields ack))

  -- The fields that the two texts of an acknowledgement share.
  abbrev parse_ack_fields : ℤ → List ℕ → Option (MovementAck F)
  parse_ack_fields session_id fields =
      and_then (and_then (parse_ack_field fields (codes "x")) parse_finite_float) (λ x.
        and_then (and_then (parse_ack_field fields (codes "y")) parse_finite_float) (λ y.
          and_then (and_then (parse_ack_field fields (codes "z")) parse_finite_float) (λ z.
            and_then (and_then (parse_ack_field fields (codes "worldTick")) parse_uint64) (λ tick.
              and_then
                (and_then (parse_ack_field fields (codes "lastProcessedInputSequence"))
                  parse_uint64)
                (λ sequence. some (record {
                  session_id = session_id;
                  x = x;
                  y = y;
                  z = z;
                  world_tick = tick;
                  last_processed_input_sequence = sequence;
                }))))))

  abbrev parse_ack_behind : Option (List ℕ) → Result (MovementAck F)
  parse_ack_behind none = err "world update is not a movement ack"
  parse_ack_behind (some fields) = valid_or_err (
      and_then (and_then (parse_ack_field fields (codes "session")) parse_int64) (λ session_id.
        if leb_ℤ session_id (pos 0) then none else parse_ack_fields session_id fields))
    where
      valid_or_err : Option (MovementAck F) → Result (MovementAck F)
      valid_or_err none = err "movement ack contains invalid fields"
      valid_or_err (some ack) = ok ack

  unfoldable pub parse_movement_ack : List ℕ → Result (MovementAck F)
  parse_movement_ack payload = parse_ack_behind (strip_prefix (codes "movementAck=") payload)

  unfoldable pub try_parse_attached_movement_ack : List ℕ → Option (MovementAck F)
  try_parse_attached_movement_ack payload =
      and_then (parse_movement_event_session payload)
        (λ session_id. parse_ack_fields session_id payload)

-- The pieces between the semicolons, as `std::getline` reads them, with the text of the first one
-- that has been read. A text that ends behind a semicolon has no further piece.
unfoldable pub fields_from : List ℕ → List ℕ → List (List ℕ)
fields_from field [] = if length field == 0 then [] else field ∷ []
fields_from field (b ∷ bs) =
    let later = fields_from (if b == b';' then [] else field ++ b ∷ []) bs in
    if b == b';' then field ∷ later else later

-- The coordinates that have been found so far.
pub record FoundPose (F : Type 0) : Type 0 where
  pub found_x : Option F
  pub found_y : Option F
  pub found_z : Option F

module _ {F : Type 0} (fl : FloatOps F) (ft : FloatText F) where
  -- A coordinate's text has to be that of a finite number, another field is passed over.
  abbrev note_field : FoundPose F → Option (List ℕ × List ℕ) → Option (FoundPose F)
  note_field found none = some found
  note_field found (some (key, text)) =
      let value = parse_finite_float fl ft text in
      if bytes_eq key (codes "x")
      then and_then value (λ v. some (record found { found_x = some v }))
      else if bytes_eq key (codes "y")
      then and_then value (λ v. some (record found { found_y = some v }))
      else if bytes_eq key (codes "z")
      then and_then value (λ v. some (record found { found_z = some v }))
      else some found

  abbrev note_fields : FoundPose F → List (List ℕ) → Option (FoundPose F)
  note_fields found [] = some found
  note_fields found (field ∷ fields) =
      and_then (note_field found (split_at b'=' field)) (λ next. note_fields next fields)

  unfoldable pub try_parse_public_movement_pose : List ℕ → Option (PublicMovementPose F)
  try_parse_public_movement_pose payload =
      and_then (parse_movement_event_session payload) (λ session_id.
        and_then
          (note_fields (record { found_x = none; found_y = none; found_z = none })
            (fields_from [] payload))
          (λ found. and_then found.found_x (λ x. and_then found.found_y (λ y.
            and_then found.found_z
              (λ z. some (record { session_id = session_id; x = x; y = y; z = z }))))))
