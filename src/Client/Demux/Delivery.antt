-- ===== src/Client/Demux/Delivery.antt =====
-- src/ClientInboundDemux.cpp on a connection that carries whole frames, in whatever pieces they come.
use seed_origin.Base.{
  ℕ, false, List, [], ◌∷◌, ◌++◌, append_assoc, append-nil, length, concat, All, Result, ok, err,
  ◌≡◌, refl, sym, ap, ◌∙◌, subst, arith,
}
use seed_origin.Client.Demux.{InboundFrame, ClientInboundDemux, no_bytes, Demuxed, demux, append}
use seed_origin.Client.Demux.Rounds.{bytes_of, IsInbound, IsProgress, no_frames, demux-IsProgress}

abbrev then_demux : Result (Unit {0}) → Demuxed → Demuxed → Demuxed
then_demux (err e) r later = r
then_demux (ok u) r later = record later { frames = r.frames ++ later.frames }

-- The reads of one connection, until one is refused.
unfoldable pub demux_chunks : ClientInboundDemux → List (List ℕ) → Demuxed
demux_chunks d [] = record { after = d; frames = []; outcome = ok tt }
demux_chunks d (x ∷ xs) =
    let r = append d x in let later = demux_chunks r.after xs in then_demux r.outcome r later

-- All frames have come, and nothing is left over.
pub record IsDelivered (frames : List InboundFrame) (r : Demuxed) : Type 0 where
  pub all : r.frames ≡ frames
  pub none_left : r.after.buffered ≡ []
  pub accepted : r.outcome ≡ ok tt
  pub open_still : r.after.failed_state ≡ false

pub append-demux :
    (d : ClientInboundDemux) (x : List ℕ)
    → d.failed_state ≡ false
    → append d x ≡ demux (length (d.buffered ++ x)) (d.buffered ++ x)
unfolding append
append-demux d x h = rw h refl

All-behind : (fs gs : List InboundFrame) → All IsInbound (fs ++ gs) → All IsInbound gs
All-behind [] gs h = h
All-behind (f ∷ fs) gs h = All-behind fs gs h.1

chunks-IsDelivered :
    (d : ClientInboundDemux) (xs : List (List ℕ)) (gs : List InboundFrame)
    → d.failed_state ≡ false
    → All IsInbound gs
    → d.buffered ++ concat xs ≡ bytes_of gs
    → (length (concat xs) ≡ 0 → gs ≡ [])
    → IsDelivered gs (demux_chunks d xs)
unfolding demux_chunks
chunks-IsDelivered d [] gs h ws e z = record {
  all = sym (z refl);
  none_left = sym (append-nil d.buffered) ∙ e ∙ ap bytes_of (z refl);
  accepted = refl;
  open_still = h;
}
chunks-IsDelivered d (x ∷ xs) gs h ws e z =
    let r = append d x in
    let p = subst (IsProgress gs (concat xs)) (sym (append-demux d x h)) (
      demux-IsProgress (length (d.buffered ++ x)) (d.buffered ++ x) (concat xs) gs (omega arith) ws
        (append_assoc d.buffered x (concat xs) ∙ e)) in
    let later =
      chunks-IsDelivered r.after xs p.left p.healthy
        (All-behind r.frames p.left (subst (All IsInbound) (sym p.cut) ws)) p.rest p.drained in
    rw p.fine (record {
      all = ap (◌++◌ r.frames) later.all ∙ p.cut;
      none_left = later.none_left;
      accepted = later.accepted;
      open_still = later.open_still;
    })

-- Frames that are as long as their headers say come out of the demultiplexer all, in order and of
-- their kinds, in whatever pieces their bytes are read, and nothing is left in the buffer.
pub demux_chunks-IsDelivered :
    (frames : List InboundFrame) (chunks : List (List ℕ))
    → All IsInbound frames
    → concat chunks ≡ bytes_of frames
    → IsDelivered frames (demux_chunks no_bytes chunks)
demux_chunks-IsDelivered frames chunks ws e =
    chunks-IsDelivered no_bytes chunks frames refl ws e
      (λ z. no_frames frames ws (omega (arith, z, ap length e)))
