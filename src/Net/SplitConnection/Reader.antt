-- ===== src/Net/SplitConnection/Reader.antt =====
-- The reader of amqprs/src/net/split_connection.rs takes frames off the stream, in whatever pieces it
-- comes.
use amqprs.Prelude.{
  ℕ, ◌^◌, ◌<◌, ◌≡◌, refl, ◌∙◌, ap, ap₂, ◌⊎◌, inl, inr, false, List, [], ◌∷◌, ◌++◌, some, length,
  drop, get_elem?, ◌==◌, if◌then◌else◌, arith, length-append, drop-append, append_assoc, All,
}
use amqprs.Frame.Frames.{Frame, ser_frame}
use amqprs.Frame.Payload.{FrameFits}
use amqprs.Frame.Stream.{encode, decode-encode, decode-incomplete}
use amqprs.Net.SplitConnection.{
  ReadFrame, frame_read, peer_shutdown, interrupted, decode_buffer, read_loop, read_frame,
}

abbrev pub flatten : List (List ℕ) → List ℕ
flatten [] = []
flatten (piece ∷ pieces) = piece ++ flatten pieces

abbrev pub IsPiece : List ℕ → Type 0
IsPiece piece = 0 < length piece

-- Two ways to cut the same bytes: the first part is the longer one, or the shorter.
cut_cases :
    (a b c d : List ℕ)
    → a ++ b ≡ c ++ d
    → ((m : List ℕ) × (a ≡ c ++ m) × (m ++ b ≡ d)) ⊎ ((m : List ℕ) × (a ++ m ≡ c) × (0 < length m))
cut_cases a b [] d e = inl (a, refl, e)
cut_cases [] b (y ∷ c) d e = inr (y ∷ c, refl, omega arith)
cut_cases (x ∷ a) b (y ∷ c) d e =
    let same : some x ≡ some y = ap (λ (l : List ℕ). get_elem? l 0) e in
    let head : x ≡ y = cc in
    elim (cut_cases a b c d (ap (λ (l : List ℕ). drop 1 l) e)) [
      | inl (m, p, q) ↦ inl (m, ap₂ (λ (z : ℕ) (l : List ℕ). z ∷ l) head p, q)
      | inr (m, p, q) ↦ inr (m, ap₂ (λ (z : ℕ) (l : List ℕ). z ∷ l) head p, q)
    ]

-- A read that returned the frame and left the bytes behind it, in nonempty pieces still.
abbrev pub Reads : ReadFrame → ℕ → Frame → List ℕ → Type 0
Reads r channel f rest =
    (buffer : List ℕ) × (pieces : List (List ℕ)) × (r ≡ frame_read channel f buffer pieces)
    × (buffer ++ flatten pieces ≡ rest)
    × All IsPiece pieces

module _ (channel : ℕ) (f : Frame) (rest : List ℕ) (hc : channel < 2 ^ 16) (w : FrameFits f)
    (hp : length (ser_frame f) < 2 ^ 32) where
  whole :
      (m : List ℕ) (pieces : List (List ℕ)) (continue : ReadFrame)
      → decode_buffer (encode channel f ++ m) pieces continue ≡ frame_read channel f m pieces
  unfolding decode_buffer
  whole m pieces continue =
      rw (decode-encode channel f m hc w hp, drop-append (encode channel f) m) refl

  part :
      (buffer m : List ℕ) (pieces : List (List ℕ)) (continue : ReadFrame)
      → buffer ++ m ≡ encode channel f
      → 0 < length m
      → decode_buffer buffer pieces continue ≡ continue
  unfolding decode_buffer
  part buffer m pieces continue e h = rw (decode-incomplete channel f buffer m hc hp e h) refl

  read_loop-Reads :
      (pieces : List (List ℕ)) (buffer : List ℕ)
      → All IsPiece pieces
      → buffer ++ flatten pieces ≡ encode channel f ++ rest
      → (m : List ℕ) → buffer ++ m ≡ encode channel f
      → 0 < length m
      → Reads (read_loop buffer pieces) channel f rest
  unfolding read_loop
  read_loop-Reads [] buffer a e m p h = absurd (
      omega (
        arith,
        ap (λ (l : List ℕ). length l) e,
        ap (λ (l : List ℕ). length l) p,
        length-append buffer m,
        length-append buffer [],
        length-append (encode channel f) rest,
      ))
  read_loop-Reads (piece ∷ pieces) buffer a e m p h =
      let more : (length piece == 0) ≡ false = ground arith in
      let e' : (buffer ++ piece) ++ flatten pieces ≡ encode channel f ++ rest =
        append_assoc buffer piece (flatten pieces) ∙ e in
      elim (cut_cases (buffer ++ piece) (flatten pieces) (encode channel f) rest e') [
        | inl (n, q, r) ↦ (
          n,
          pieces,
          rw (more, q) (whole n pieces (read_loop (encode channel f ++ n) pieces)),
          r,
          a.1,
        )
        | inr (n, q, r) ↦
            let (b, ps, s, t, u) = read_loop-Reads pieces (buffer ++ piece) a.1 e' n q r in
            (
              b,
              ps,
              rw (more, part (buffer ++ piece) n pieces (read_loop (buffer ++ piece) pieces) q r) s,
              t,
              u,
            )
      ]

  -- If the bytes in the buffer and in the nonempty pieces of the stream begin with a frame that
  -- decode-encode covers, read_frame returns this frame and its channel, however the bytes are
  -- cut, and what it leaves in the buffer and the stream are the bytes behind the frame.
  pub read_frame-Reads :
      (buffer : List ℕ) (pieces : List (List ℕ))
      → All IsPiece pieces
      → buffer ++ flatten pieces ≡ encode channel f ++ rest
      → Reads (read_frame buffer pieces) channel f rest
  unfolding read_frame
  read_frame-Reads buffer pieces a e =
      elim (cut_cases buffer (flatten pieces) (encode channel f) rest e) [
        | inl (n, q, r) ↦
            (n, pieces, rw q (whole n pieces (read_loop (encode channel f ++ n) pieces)), r, a)
        | inr (n, q, r) ↦
            let (b, ps, s, t, u) = read_loop-Reads pieces buffer a e n q r in
            (b, ps, part buffer n pieces (read_loop buffer pieces) q r ∙ s, t, u)
      ]

  -- If the stream ends where the buffer holds a proper part of a frame, read_frame returns the
  -- error of an interrupted connection, and that of a peer that shut down if the buffer is empty.
  pub read_frame-closed :
      (buffer missing : List ℕ) (pieces : List (List ℕ))
      → buffer ++ missing ≡ encode channel f
      → 0 < length missing
      → read_frame buffer ([] ∷ pieces)
        ≡ (if length buffer == 0 then peer_shutdown else interrupted)
  unfolding read_frame read_loop
  read_frame-closed buffer missing pieces e h = part buffer missing ([] ∷ pieces) _ e h
