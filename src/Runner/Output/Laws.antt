-- ===== src/Runner/Output/Laws.antt =====
-- The shared limit of the two output streams: how much is kept, and what is lost.
use mathlib.Core.List.{append_assoc, append-nil}
use mgate_agent.Base.{
  ℕ, ◌+◌, ◌-◌, ◌≤◌, ◌<◌, ◌≡◌, refl, ◌∙◌, sym, ap, true, false, ◌||◌, List, [], ◌∷◌, ◌++◌, arith,
  leb, ltb, ltb→lt, if◌then◌else◌, length, take, take-append-drop, drop, length-append, length-take,
  All, Bool-cases, ◌⊎◌, inl, inr,
}
use mgate_agent.Base.Text.{Text}
use mgate_agent.Runner.Output.{
  Stream, Streams, stdout, stderr, new_output_streams, write, write_all,
}

-- what a write to one stream is for a stream
unfoldable pub part : Stream → Stream → Text → Text
part stdout stdout p = p
part stdout stderr p = []
part stderr stdout p = []
part stderr stderr p = p

-- the bytes that the process sent to a stream, in order
unfoldable pub sent : Stream → List (Stream × Text) → Text
unfolding part
sent s [] = []
sent s ((to, p) ∷ ws) = part s to p ++ sent s ws

unfoldable pub total : List (Stream × Text) → ℕ
total [] = 0
total ((s, p) ∷ ws) = length p + total ws

abbrev pub buffer : Stream → Streams → Text
buffer stdout s = s.stdout
buffer stderr s = s.stderr

write-used :
    (stream : Stream) (p : Text) (s : Streams)
    → let s' = (write stream p s).0 in
      length s'.stdout + length s'.stderr + s'.remaining
      ≡ length s.stdout + length s.stderr + s.remaining
unfolding write
write-used stdout p s = ground (
  arith,
  length-append s.stdout p,
  length-append s.stdout (take s.remaining p),
  length-take s.remaining p,
)
write-used stderr p s = ground (
  arith,
  length-append s.stderr p,
  length-append s.stderr (take s.remaining p),
  length-take s.remaining p,
)

write_all-used :
    (ws : List (Stream × Text)) (s : Streams)
    → let s' = write_all ws s in
      length s'.stdout + length s'.stderr + s'.remaining
      ≡ length s.stdout + length s.stderr + s.remaining
unfolding write_all
write_all-used [] s = refl
write_all-used ((stream, p) ∷ ws) s = write_all-used ws (write stream p s).0 ∙ write-used stream p s

-- a full limiter lets nothing in
write_full :
    (stream to : Stream) (p : Text) (s : Streams)
    → s.remaining ≡ 0
    → ((write to p s).0.remaining ≡ 0) × (buffer stream (write to p s).0 ≡ buffer stream s)
unfolding write
write_full stdout to p s h = ground arith
write_full stderr to p s h = ground arith

write_all_full :
    (stream : Stream) (ws : List (Stream × Text)) (s : Streams)
    → s.remaining ≡ 0
    → buffer stream (write_all ws s) ≡ buffer stream s
unfolding write_all
write_all_full stream [] s h = refl
write_all_full stream ((to, p) ∷ ws) s h =
    let (full, same) = write_full stream to p s h in
    write_all_full stream ws (write to p s).0 full ∙ same

write_truncated :
    (to : Stream) (p : Text) (s : Streams) → s.truncated ≡ true → (write to p s).0.truncated ≡ true
unfolding write
write_truncated stdout p s h = ground arith
write_truncated stderr p s h = ground arith

write_all_truncated :
    (ws : List (Stream × Text)) (s : Streams)
    → s.truncated ≡ true
    → (write_all ws s).truncated ≡ true
unfolding write_all
write_all_truncated [] s h = h
write_all_truncated ((to, p) ∷ ws) s h =
    write_all_truncated ws (write to p s).0 (write_truncated to p s h)

-- a write loses nothing, or fills the limiter and keeps a first part
abbrev Kept : Stream → Stream → Text → Streams → Type 0
Kept stream to p s =
    (buffer stream (write to p s).0 ≡ buffer stream s ++ part stream to p)
    ⊎ (((write to p s).0.remaining ≡ 0)
        × ((write to p s).0.truncated ≡ true)
        × ((rest : Text) × (buffer stream (write to p s).0 ++ rest
              ≡ buffer stream s ++ part stream to p)))

write-Kept : (stream to : Stream) (p : Text) (s : Streams) → Kept stream to p s
unfolding write part
write-Kept stdout stdout p s = elim (Bool-cases (leb s.remaining 0)) [
  | inl e ↦ inr (ground arith, ground arith, (p, rw e))
  | inr e ↦ elim (Bool-cases (ltb s.remaining (length p))) [
    | inl f ↦
        rw (e, f)
          (inr (
            refl,
            refl,
            (
              drop s.remaining p,
              append_assoc s.stdout (take s.remaining p) (drop s.remaining p)
                  ∙ ap (λ t. s.stdout ++ t) (take-append-drop s.remaining p),
            ),
          ))
    | inr f ↦ rw (e, f) (inl refl)
  ]
]
write-Kept stderr stderr p s = elim (Bool-cases (leb s.remaining 0)) [
  | inl e ↦ inr (ground arith, ground arith, (p, rw e))
  | inr e ↦ elim (Bool-cases (ltb s.remaining (length p))) [
    | inl f ↦
        rw (e, f)
          (inr (
            refl,
            refl,
            (
              drop s.remaining p,
              append_assoc s.stderr (take s.remaining p) (drop s.remaining p)
                  ∙ ap (λ t. s.stderr ++ t) (take-append-drop s.remaining p),
            ),
          ))
    | inr f ↦ rw (e, f) (inl refl)
  ]
]
write-Kept stdout stderr p s = inl (rw append-nil (ground arith))
write-Kept stderr stdout p s = inl (rw append-nil (ground arith))

write_all-prefix :
    (stream : Stream) (ws : List (Stream × Text)) (s : Streams)
    → (rest : Text) × (buffer stream (write_all ws s) ++ rest ≡ buffer stream s ++ sent stream ws)
unfolding write_all sent
write_all-prefix stream [] s = ([], refl)
write_all-prefix stream ((to, p) ∷ ws) s = elim (write-Kept stream to p s) [
  | inl e ↦
      let (rest, h) = write_all-prefix stream ws (write to p s).0 in
      (
        rest,
        h
            ∙ ap (λ t. t ++ sent stream ws) e
            ∙ append_assoc (buffer stream s) (part stream to p) (sent stream ws),
      )
  | inr (full, cut, (lost, e)) ↦ (
    lost ++ sent stream ws,
    ap (λ t. t ++ (lost ++ sent stream ws)) (write_all_full stream ws (write to p s).0 full)
        ∙ sym (append_assoc (buffer stream (write to p s).0) lost (sent stream ws))
        ∙ ap (λ t. t ++ sent stream ws) e
        ∙ append_assoc (buffer stream s) (part stream to p) (sent stream ws),
  )
]

write_all-whole :
    (stream : Stream) (ws : List (Stream × Text)) (s : Streams)
    → (write_all ws s).truncated ≡ false
    → buffer stream (write_all ws s) ≡ buffer stream s ++ sent stream ws
unfolding write_all sent
write_all-whole stream [] s h = sym (append-nil (buffer stream s))
write_all-whole stream ((to, p) ∷ ws) s h = elim (write-Kept stream to p s) [
  | inl e ↦
      write_all-whole stream ws (write to p s).0 h
      ∙ ap (λ t. t ++ sent stream ws) e
      ∙ append_assoc (buffer stream s) (part stream to p) (sent stream ws)
  | inr (full, cut, lost) ↦ absurd (cc (write_all_truncated ws (write to p s).0 cut))
]

abbrev pub IsNonempty : Stream × Text → Type 0
IsNonempty w = 0 < length w.1

write_cuts :
    (to : Stream) (p : Text) (s : Streams)
    → s.remaining < length p
    → (write to p s).0.truncated ≡ true
unfolding write
write_cuts stdout p s h = ground arith
write_cuts stderr p s h = ground arith

write_fits :
    (to : Stream) (p : Text) (s : Streams)
    → 0 < length p
    → length p ≤ s.remaining
    → ((write to p s).0.truncated ≡ s.truncated)
      × ((write to p s).0.remaining ≡ s.remaining - length p)
unfolding write
write_fits stdout p s nonempty h = ground arith
write_fits stderr p s nonempty h = ground arith

write_all-truncated :
    (ws : List (Stream × Text)) (s : Streams)
    → All IsNonempty ws
    → (write_all ws s).truncated ≡ (s.truncated || ltb s.remaining (total ws))
unfolding write_all total
write_all-truncated [] s all = ground arith
write_all-truncated ((to, p) ∷ ws) s all = elim (Bool-cases (ltb s.remaining (length p))) [
  | inl e ↦
      let cut = write_cuts to p s (ltb→lt s.remaining (length p) e) in
      ground (arith, write_all_truncated ws (write to p s).0)
  | inr e ↦
      let (flag, left) = write_fits to p s all.0 (ground arith) in
      ground (arith, write_all-truncated ws (write to p s).0 all.1)
]

-- the limit that applies
abbrev pub limit_of : ℕ → ℕ
limit_of max_bytes = if leb max_bytes 0 then 1 else max_bytes

-- Whatever a process writes, in whatever interleaving of its streams: the two buffers and the
-- room left add up to the limit, and each buffer is a first part of what was sent to its stream.
pub write_all_bounded :
    (max_bytes : ℕ) (ws : List (Stream × Text)) (stream : Stream)
    → let s = write_all ws (new_output_streams max_bytes) in
      (length s.stdout + length s.stderr + s.remaining ≡ limit_of max_bytes)
      × ((rest : Text) × (buffer stream s ++ rest ≡ sent stream ws))
unfolding new_output_streams
write_all_bounded max_bytes ws stdout =
    let s0 = new_output_streams max_bytes in
    (omega (arith, write_all-used ws s0), write_all-prefix stdout ws s0)
write_all_bounded max_bytes ws stderr =
    let s0 = new_output_streams max_bytes in
    (omega (arith, write_all-used ws s0), write_all-prefix stderr ws s0)

-- Output that is not marked as truncated is complete: each buffer is all that was sent to its
-- stream.
pub untruncated_whole :
    (max_bytes : ℕ) (ws : List (Stream × Text)) (stream : Stream)
    → (write_all ws (new_output_streams max_bytes)).truncated ≡ false
    → buffer stream (write_all ws (new_output_streams max_bytes)) ≡ sent stream ws
unfolding new_output_streams
untruncated_whole max_bytes ws stdout h = write_all-whole stdout ws (new_output_streams max_bytes) h
untruncated_whole max_bytes ws stderr h = write_all-whole stderr ws (new_output_streams max_bytes) h

-- If no write is empty, the output is marked as truncated exactly when the process wrote more
-- bytes in all than the limit.
pub truncated_exactly :
    (max_bytes : ℕ) (ws : List (Stream × Text))
    → All IsNonempty ws
    → (write_all ws (new_output_streams max_bytes)).truncated ≡ ltb (limit_of max_bytes) (total ws)
unfolding new_output_streams
truncated_exactly max_bytes ws all = write_all-truncated ws (new_output_streams max_bytes) all
