-- ===== src/Client/Demux/Rest.antt =====
-- How a call of src/ClientInboundDemux.cpp ends, whatever bytes it is given.
use seed_origin.Base.{
  ℕ, zero, suc, ◌≤◌, ◌<◌, true, false, List, ◌++◌, append_assoc, ltb, not, length, length-drop,
  take, drop, take-append-drop, String, if_lem, ok, ◌≡◌, ◌≢◌, ◌⊎◌, inl, inr, refl, sym, ap, ◌∙◌,
  subst, arith,
}
use seed_origin.Client.Demux.{
  InboundFrameKind, ClientInboundDemux, Demuxed, is_supported_inbound_prefix, waiting, failing,
  layout_of, kind_of, frame_size, emit, demux, append,
}
use seed_origin.Net.Bytes.{read_frame_u16, read_frame_u32}
use seed_origin.Client.Demux.Delivery.{append-demux}
use seed_origin.Client.Demux.Rounds.{bytes_of, header_bounds, header_le}

-- The bytes are in the frames and in the buffer, and the call has ended with the beginning of a frame
-- that is not there as a whole, or it has failed for good.
unfoldable pub IsAtRest : List ℕ → Demuxed → Type 0
IsAtRest b r =
    (bytes_of r.frames ++ r.after.buffered ≡ b)
    × ((r.outcome ≡ ok tt)
          × (r.after.failed_state ≡ false)
          × (length r.after.buffered < frame_size r.after.buffered)
        ⊎ (r.outcome ≢ ok tt) × (r.after.failed_state ≡ true))

waiting-IsAtRest : (b : List ℕ) → length b < frame_size b → IsAtRest b (waiting b)
unfolding IsAtRest
waiting-IsAtRest b h = (refl, inl (refl, refl, h))

failing-IsAtRest : (b : List ℕ) (e : String) → IsAtRest b (failing b e)
unfolding IsAtRest
failing-IsAtRest b e = (refl, inr (λ h. cc, refl))

emit-IsAtRest :
    (n : ℕ) (b : List ℕ) (kind : InboundFrameKind) (r : Demuxed)
    → IsAtRest (drop n b) r
    → IsAtRest b (emit (record { kind = kind; bytes = take n b }) r)
unfolding IsAtRest
emit-IsAtRest n b kind r (all, end) = (
  append_assoc (take n b) (bytes_of r.frames) r.after.buffered
      ∙ ap (◌++◌ (take n b)) all
      ∙ take-append-drop n b,
  end,
)

demux-IsAtRest : (fuel : ℕ) (b : List ℕ) → length b ≤ fuel → IsAtRest b (demux fuel b)
unfolding demux
demux-IsAtRest zero b h = waiting-IsAtRest b (omega (arith, header_le b, header_bounds b))
demux-IsAtRest (suc fuel) b h =
    let P = IsAtRest b in
    let size = frame_size b in
    let later = demux fuel (drop size b) in
    if_lem P (ltb (length b) 2) _ _
      (λ g. waiting-IsAtRest b (ground (arith, header_le b, header_bounds b)))
      (λ g1.
        if_lem P (not (is_supported_inbound_prefix (read_frame_u16 b 0))) _ _
          (λ g. failing-IsAtRest b _)
          (λ g2.
            if_lem P (ltb (length b) (layout_of b).header_size) _ _
              (λ g. waiting-IsAtRest b (ground (arith, header_le b)))
              (λ g3.
                if_lem P (ltb (layout_of b).max_payload (read_frame_u32 b (layout_of b).length_at))
                  _ _ (λ g. failing-IsAtRest b _)
                  (λ g4.
                    if_lem P (ltb (length b) size) _ _ (λ g. waiting-IsAtRest b (ground arith))
                      (λ g. emit-IsAtRest size b (kind_of b) later (
                        demux-IsAtRest fuel (drop size b) (
                          ground (arith, length-drop size b, header_le b, header_bounds b, h))))))))

-- A call of the demultiplexer that has not failed before, whatever bytes it is given, ends with
-- all bytes in the frames and the buffer, and either it has accepted them and the buffer is
-- shorter than the frame that it begins with, or it has failed for good.
pub append-IsAtRest :
    (d : ClientInboundDemux) (bytes : List ℕ)
    → d.failed_state ≡ false
    → IsAtRest (d.buffered ++ bytes) (append d bytes)
append-IsAtRest d bytes h =
    subst (IsAtRest (d.buffered ++ bytes)) (sym (append-demux d bytes h))
      (demux-IsAtRest (length (d.buffered ++ bytes)) (d.buffered ++ bytes) (omega arith))
