-- ===== src/Client/Demux/Rounds.antt =====
-- The rounds of `ClientInboundDemux::append` of src/ClientInboundDemux.cpp on a buffer that begins with
-- whole frames.
use seed_origin.Base.{
  ℕ, zero, suc, ◌+◌, ◌≤◌, ◌<◌, Bool-cases, true, false, List, [], ◌∷◌, ◌++◌, ltb, length,
  length-append, length-drop, take, drop, get_or, get_or-append_lt, take-append_le, drop-append_le,
  take-append_length, drop-append_length, All, ok, ◌≡◌, inl, inr, refl, sym, ap, ◌∙◌, arith,
}
use seed_origin.Net.Bytes.{read_frame_u16, read_frame_u32}
use seed_origin.Client.Demux.{
  InboundFrame, Demuxed, is_supported_inbound_prefix, layout_of, kind_of, frame_size, waiting, emit,
  demux,
}

abbrev pub bytes_of : List InboundFrame → List ℕ
bytes_of [] = []
bytes_of (f ∷ fs) = f.bytes ++ bytes_of fs

-- A frame as the server sends it: it is as long as its header says, and its payload is not too long.
pub record IsInbound (f : InboundFrame) : Type 0 where
  pub supported : is_supported_inbound_prefix (read_frame_u16 f.bytes 0) ≡ true
  pub whole : length f.bytes ≡ frame_size f.bytes
  pub small :
      ltb (layout_of f.bytes).max_payload (read_frame_u32 f.bytes (layout_of f.bytes).length_at)
      ≡ false
  pub kind_fits : f.kind ≡ kind_of f.bytes

-- A call that has cut off the first of the frames that are to come and waits for the others.
pub record IsProgress (frames : List InboundFrame) (more : List ℕ) (r : Demuxed) : Type 0 where
  pub left : List InboundFrame
  pub cut : r.frames ++ left ≡ frames
  pub rest : r.after.buffered ++ more ≡ bytes_of left
  pub fine : r.outcome ≡ ok tt
  pub healthy : r.after.failed_state ≡ false
  pub drained : length more ≡ 0 → left ≡ []

-- Two texts with a common beginning, which the reads of a header stay in.
module _ (b c : List ℕ) (more rest : List ℕ) (e : b ++ more ≡ c ++ rest) where
  same_byte : (i : ℕ) → i < length b → i < length c → get_or b i 0 ≡ get_or c i 0
  same_byte i h k =
      sym (get_or-append_lt i b more 0 h) ∙ ap (λ t. get_or t i 0) e ∙ get_or-append_lt i c rest 0 k

  same_u16 : (i : ℕ) → i + 2 ≤ length b → i + 2 ≤ length c → read_frame_u16 b i ≡ read_frame_u16 c i
  same_u16 i h k =
      rw (same_byte i (omega arith) (omega arith), same_byte (i + 1) (omega arith) (omega arith))
        refl

  same_u32 : (i : ℕ) → i + 4 ≤ length b → i + 4 ≤ length c → read_frame_u32 b i ≡ read_frame_u32 c i
  same_u32 i h k =
      rw
        (
          same_byte i (omega arith) (omega arith),
          same_byte (i + 1) (omega arith) (omega arith),
          same_byte (i + 2) (omega arith) (omega arith),
          same_byte (i + 3) (omega arith) (omega arith),
        )
        refl

  same_layout : 2 ≤ length b → 2 ≤ length c → layout_of b ≡ layout_of c
  unfolding layout_of
  same_layout h k = rw (same_u16 0 h k) refl

  same_kind : 4 ≤ length b → 4 ≤ length c → kind_of b ≡ kind_of c
  unfolding kind_of
  same_kind h k = rw (same_u16 0 (omega arith) (omega arith), same_u16 2 h k) refl

pub header_bounds :
    (c : List ℕ)
    → (16 ≤ (layout_of c).header_size) × ((layout_of c).length_at + 4 ≤ (layout_of c).header_size)
unfolding layout_of
header_bounds c = ground arith

waiting-IsProgress :
    (gs : List InboundFrame) (buffered more : List ℕ)
    → buffered ++ more ≡ bytes_of gs
    → (length more ≡ 0 → gs ≡ [])
    → IsProgress gs more (waiting buffered)
waiting-IsProgress gs buffered more e d = record {
  left = gs;
  cut = refl;
  rest = e;
  fine = refl;
  healthy = refl;
  drained = d;
}

emit-IsProgress :
    (g f : InboundFrame) (gs : List InboundFrame) (more : List ℕ) (r : Demuxed)
    → f ≡ g
    → IsProgress gs more r
    → IsProgress (g ∷ gs) more (emit f r)
emit-IsProgress g f gs more r e w = record {
  left = w.left;
  cut = ap (λ h. h ∷ (r.frames ++ w.left)) e ∙ ap (◌∷◌ g) w.cut;
  rest = w.rest;
  fine = w.fine;
  healthy = w.healthy;
  drained = w.drained;
}

same_frame : (f g : InboundFrame) → f.kind ≡ g.kind → f.bytes ≡ g.bytes → f ≡ g
same_frame f g h k = λ i. record { kind = h i; bytes = k i }

-- A buffer that the first frame begins with is cut at the end of that frame.
whole_in_front :
    (b c more rest : List ℕ)
    → b ++ more ≡ c ++ rest
    → length c ≤ length b
    → (take (length c) b ≡ c) × (drop (length c) b ++ more ≡ rest)
whole_in_front b c more rest e h = (
  sym (take-append_le (length c) b more h) ∙ ap (take (length c)) e ∙ take-append_length c rest,
  sym (drop-append_le (length c) b more h) ∙ ap (drop (length c)) e ∙ drop-append_length c rest,
)

pub header_le : (c : List ℕ) → (layout_of c).header_size ≤ frame_size c
unfolding frame_size
header_le c = omega arith

frame_size_lem :
    (c : List ℕ)
    → frame_size c ≡ (layout_of c).header_size + read_frame_u32 c (layout_of c).length_at
unfolding frame_size
frame_size_lem c = refl

pub no_frames : (gs : List InboundFrame) → All IsInbound gs → length (bytes_of gs) ≡ 0 → gs ≡ []
no_frames [] ws h = refl
no_frames (g ∷ gs) (w, ws) h = absurd (
    omega (
      arith,
      length-append g.bytes (bytes_of gs),
      h,
      w.whole,
      header_le g.bytes,
      header_bounds g.bytes,
    ))

-- The tests of a round on a buffer that holds the header of the frame `g` and begins with it.
module _ (b : List ℕ) (more : List ℕ) (g : InboundFrame) (rest : List ℕ)
    (e : b ++ more ≡ g.bytes ++ rest) (w : IsInbound g) where
  long : (layout_of g.bytes).header_size ≤ length g.bytes
  long = omega (arith, header_le g.bytes, w.whole)

  layout : 2 ≤ length b → layout_of b ≡ layout_of g.bytes
  layout two = same_layout b g.bytes more rest e two (omega (arith, long, header_bounds g.bytes))

  prefix_supported : 2 ≤ length b → is_supported_inbound_prefix (read_frame_u16 b 0) ≡ true
  prefix_supported two =
      ap is_supported_inbound_prefix
        (same_u16 b g.bytes more rest e 0 two (omega (arith, long, header_bounds g.bytes)))
      ∙ w.supported

  module _ (h : (layout_of g.bytes).header_size ≤ length b) where
    two : 2 ≤ length b
    two = omega (arith, h, header_bounds g.bytes)

    payload :
        read_frame_u32 b (layout_of b).length_at
        ≡ read_frame_u32 g.bytes (layout_of g.bytes).length_at
    payload =
        ap (λ l. read_frame_u32 b l.length_at) (layout two)
        ∙ same_u32 b g.bytes more rest e (layout_of g.bytes).length_at
            (omega (arith, h, header_bounds g.bytes)) (omega (arith, long, header_bounds g.bytes))

    payload_small : ltb (layout_of b).max_payload (read_frame_u32 b (layout_of b).length_at) ≡ false
    payload_small =
        ap (λ l. ltb l.max_payload (read_frame_u32 b (layout_of b).length_at)) (layout two)
        ∙ ap (ltb (layout_of g.bytes).max_payload) payload
        ∙ w.small

    size : frame_size b ≡ length g.bytes
    size =
        frame_size_lem b
        ∙ ap (λ l. l.header_size + read_frame_u32 b (layout_of b).length_at) (layout two)
        ∙ ap (λ n. (layout_of g.bytes).header_size + n) payload
        ∙ sym (frame_size_lem g.bytes)
        ∙ sym w.whole

    kind : g.kind ≡ kind_of b
    kind =
        w.kind_fits
        ∙ sym (
            same_kind b g.bytes more rest e (omega (arith, h, header_bounds g.bytes))
              (omega (arith, long, header_bounds g.bytes)))

pub demux-IsProgress :
    (fuel : ℕ) (b more : List ℕ) (gs : List InboundFrame)
    → length b ≤ fuel
    → All IsInbound gs
    → b ++ more ≡ bytes_of gs
    → IsProgress gs more (demux fuel b)
unfolding demux
demux-IsProgress zero b more gs h inbound e =
    waiting-IsProgress gs b more e
      (λ z. no_frames gs inbound (omega (arith, h, z, ap length e, length-append b more)))
demux-IsProgress (suc fuel) [] more gs h inbound e =
    waiting-IsProgress gs [] more e (λ z. no_frames gs inbound (omega (arith, z, ap length e)))
demux-IsProgress (suc fuel) (x ∷ b) more [] h inbound e = absurd (ground arith)
demux-IsProgress (suc fuel) (x ∷ b) more (g ∷ gs) h (w, ws) e =
    let buf = x ∷ b in
    let rest = bytes_of gs in
    let counted : length more ≡ 0 → frame_size g.bytes ≤ length buf = λ z.
      omega (arith, w.whole, z, ap length e, length-append buf more, length-append g.bytes rest) in
    elim (Bool-cases (ltb (length buf) 2)) [
      | inl short ↦ rw short (
          waiting-IsProgress (g ∷ gs) buf more e
            (λ z. absurd (ground (arith, counted z, header_le g.bytes, header_bounds g.bytes))))
      | inr wide ↦
          let supported = prefix_supported buf more g rest e w (ground arith) in
          let same = layout buf more g rest e w (ground arith) in
          elim (Bool-cases (ltb (length buf) (layout_of buf).header_size)) [
            | inl part ↦
                rw (wide, supported, part)
                  (waiting-IsProgress (g ∷ gs) buf more e (λ z.
                    absurd
                      (ground (arith, counted z, header_le g.bytes, ap (λ l. l.header_size) same))))
            | inr head ↦
                let header : (layout_of g.bytes).header_size ≤ length buf =
                  ground (arith, ap (λ l. l.header_size) same) in
                let n = size buf more g rest e w header in
                let fits = payload_small buf more g rest e w header in
                elim (Bool-cases (ltb (length buf) (frame_size buf))) [
                  | inl part ↦
                      rw (wide, supported, head, fits, part)
                        (waiting-IsProgress (g ∷ gs) buf more e
                          (λ z. absurd (ground (arith, counted z, n, w.whole))))
                  | inr all ↦
                      let (front, back) = whole_in_front buf g.bytes more rest e (ground arith) in
                      rw (wide, supported, head, fits, all)
                        (emit-IsProgress g _ gs more _
                          (same_frame _ g (sym (kind buf more g rest e w header))
                            (ap (λ k. take k buf) n ∙ front))
                          (demux-IsProgress fuel (drop (frame_size buf) buf) more gs
                            (omega (
                              arith,
                              h,
                              length-drop (frame_size buf) buf,
                              n,
                              long buf more g rest e w,
                              header_bounds g.bytes,
                            ))
                            ws (ap (λ k. drop k buf ++ more) n ∙ back)))
                ]
          ]
    ]
