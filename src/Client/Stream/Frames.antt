-- ===== src/Client/Stream/Frames.antt =====
-- How the first message of a stream changes when more bytes arrive.
use r_type_j_a_m_e_s.Base.{
  ℕ, zero, suc, ◌+◌, ◌*◌, sym, ◌≤◌, ◌<◌, ◌≡◌, ◌≢◌, refl, ap, ◌∙◌, ◌⊎◌, inl, inr, false, List, [],
  ◌∷◌, ◌++◌, arith, ltb, ltb→lt, ltb→ge, ge→ltb, lt→ltb, Bool-cases, length, take, drop,
  length-append, length-drop,
}
use r_type_j_a_m_e_s.Client.Stream.{Frame, short, too_large, frame, frame_at, next_frame}

pub take-append_left : (n : ℕ) (xs ys : List ℕ) → n ≤ length xs → take n (xs ++ ys) ≡ take n xs
take-append_left zero xs ys h = refl
take-append_left (suc n) [] ys h = absurd (omega arith)
take-append_left (suc n) (x ∷ xs) ys h = ap (◌∷◌ x) (take-append_left n xs ys (omega arith))

pub drop-append_left :
    (n : ℕ) (xs ys : List ℕ) → n ≤ length xs → drop n (xs ++ ys) ≡ drop n xs ++ ys
drop-append_left zero xs ys h = refl
drop-append_left (suc n) [] ys h = absurd (omega arith)
drop-append_left (suc n) (x ∷ xs) ys h = drop-append_left n xs ys (omega arith)

-- The first three bytes of a stream as long as a header.
module _ (b0 b1 b2 : ℕ) (xs : List ℕ) where
  pub next_frame-cons :
      9 ≤ length xs
      → next_frame (b0 ∷ b1 ∷ b2 ∷ xs) ≡ frame_at (b0 ∷ b1 ∷ b2 ∷ xs) b0 (b1 + b2 * 256)
  unfolding next_frame
  next_frame-cons h =
      let enough : ltb (length (b0 ∷ b1 ∷ b2 ∷ xs)) 12 ≡ false =
        ge→ltb (length (b0 ∷ b1 ∷ b2 ∷ xs)) 12 (omega arith) in
      rw enough refl

-- A message whose bytes are all there is taken, and the rest of the stream stays.
pub frame_at-whole :
    (bytes : List ℕ) (opcode size : ℕ)
    → size ≤ 500
    → 12 + size ≤ length bytes
    → frame_at bytes opcode size ≡ frame opcode (take size (drop 12 bytes)) (drop (12 + size) bytes)
unfolding frame_at
frame_at-whole bytes opcode size fits whole =
    rw (ge→ltb 500 size fits, ge→ltb (length bytes) (12 + size) whole) refl

-- What a message of the stream says about its bytes.
pub frame_at-frame :
    (bytes : List ℕ) (opcode size op : ℕ) (payload rest : List ℕ)
    → frame_at bytes opcode size ≡ frame op payload rest
    → (size ≤ 500)
      × (12 + size ≤ length bytes)
      × (op ≡ opcode)
      × (payload ≡ take size (drop 12 bytes))
      × (rest ≡ drop (12 + size) bytes)
unfolding frame_at
frame_at-frame bytes opcode size op payload rest e = ground arith

frame_at-append :
    (bytes ys : List ℕ) (opcode size op : ℕ) (payload rest : List ℕ)
    → frame_at bytes opcode size ≡ frame op payload rest
    → frame_at (bytes ++ ys) opcode size ≡ frame op payload (rest ++ ys)
frame_at-append bytes ys opcode size op payload rest e =
    let found = frame_at-frame bytes opcode size op payload rest e in
    let longer : 12 + size ≤ length (bytes ++ ys) = omega (arith, length-append bytes ys) in
    let there : size ≤ length (drop 12 bytes) = omega (arith, length-drop 12 bytes) in
    let same_payload : take size (drop 12 (bytes ++ ys)) ≡ payload =
      ap (take size) (drop-append_left 12 bytes ys (omega arith))
      ∙ take-append_left size (drop 12 bytes) ys there
      ∙ sym found.3 in
    let same_rest : drop (12 + size) (bytes ++ ys) ≡ rest ++ ys =
      drop-append_left (12 + size) bytes ys found.1 ∙ ap (λ xs. xs ++ ys) (sym found.4) in
    frame_at-whole (bytes ++ ys) opcode size found.0 longer
    ∙ ap (λ xs. frame opcode xs (drop (12 + size) (bytes ++ ys))) same_payload
    ∙ ap (frame opcode payload) same_rest
    ∙ ap (λ k. frame k payload (rest ++ ys)) (sym found.2)

frame_at-append_large :
    (bytes ys : List ℕ) (opcode size : ℕ)
    → frame_at bytes opcode size ≡ too_large
    → frame_at (bytes ++ ys) opcode size ≡ too_large
unfolding frame_at
frame_at-append_large bytes ys opcode size e = ground arith

-- A stream as long as a header, taken apart.
pub data HasHeader : List ℕ → Type 0 where
  with_header : (b0 b1 b2 : ℕ) (xs : List ℕ) → 9 ≤ length xs → HasHeader (b0 ∷ b1 ∷ b2 ∷ xs)

pub HasHeader-length : (bytes : List ℕ) → 12 ≤ length bytes → HasHeader bytes
HasHeader-length [] h = absurd (omega arith)
HasHeader-length (b0 ∷ []) h = absurd (omega arith)
HasHeader-length (b0 ∷ b1 ∷ []) h = absurd (omega arith)
HasHeader-length (b0 ∷ b1 ∷ b2 ∷ xs) h = with_header b0 b1 b2 xs (omega arith)

next_frame-short : (bytes : List ℕ) → length bytes < 12 → next_frame bytes ≡ short
unfolding next_frame
next_frame-short bytes h = rw (lt→ltb (length bytes) 12 h) refl

-- There is a header, if the stream has a message or one that is too large.
pub next_frame-HasHeader : (bytes : List ℕ) → next_frame bytes ≢ short → HasHeader bytes
next_frame-HasHeader bytes ne = elim (Bool-cases (ltb (length bytes) 12)) [
  | inl e ↦ absurd (ne (next_frame-short bytes (ltb→lt (length bytes) 12 e)))
  | inr e ↦ HasHeader-length bytes (ltb→ge (length bytes) 12 e)
]

next_frame-append_cons :
    (bytes ys : List ℕ)
    → HasHeader bytes
    → (op : ℕ) (payload rest : List ℕ) → next_frame bytes ≡ frame op payload rest
    → next_frame (bytes ++ ys) ≡ frame op payload (rest ++ ys)
next_frame-append_cons _ ys (with_header b0 b1 b2 xs h) op payload rest e =
    next_frame-cons b0 b1 b2 (xs ++ ys) (omega (arith, length-append xs ys))
    ∙ frame_at-append (b0 ∷ b1 ∷ b2 ∷ xs) ys b0 (b1 + b2 * 256) op payload rest
        (sym (next_frame-cons b0 b1 b2 xs h) ∙ e)

next_frame-append_large_cons :
    (bytes ys : List ℕ)
    → HasHeader bytes
    → next_frame bytes ≡ too_large
    → next_frame (bytes ++ ys) ≡ too_large
next_frame-append_large_cons _ ys (with_header b0 b1 b2 xs h) e =
    next_frame-cons b0 b1 b2 (xs ++ ys) (omega (arith, length-append xs ys))
    ∙ frame_at-append_large (b0 ∷ b1 ∷ b2 ∷ xs) ys b0 (b1 + b2 * 256)
        (sym (next_frame-cons b0 b1 b2 xs h) ∙ e)

-- More bytes behind a stream do not change the message it begins with.
pub next_frame-append :
    (bytes ys : List ℕ) (op : ℕ) (payload rest : List ℕ)
    → next_frame bytes ≡ frame op payload rest
    → next_frame (bytes ++ ys) ≡ frame op payload (rest ++ ys)
next_frame-append bytes ys op payload rest e =
    next_frame-append_cons bytes ys (next_frame-HasHeader bytes (λ k. cc)) op payload rest e

pub next_frame-append_large :
    (bytes ys : List ℕ) → next_frame bytes ≡ too_large → next_frame (bytes ++ ys) ≡ too_large
next_frame-append_large bytes ys e =
    next_frame-append_large_cons bytes ys (next_frame-HasHeader bytes (λ k. cc)) e

-- What stands behind a message is shorter than the stream by a header at least.
next_frame-rest_cons :
    (bytes : List ℕ)
    → HasHeader bytes
    → (op : ℕ) (payload rest : List ℕ) → next_frame bytes ≡ frame op payload rest
    → length rest < length bytes
next_frame-rest_cons _ (with_header b0 b1 b2 xs h) op payload rest e =
    let bytes : List ℕ = b0 ∷ b1 ∷ b2 ∷ xs in
    let size : ℕ = b1 + b2 * 256 in
    let found =
      frame_at-frame bytes b0 size op payload rest (sym (next_frame-cons b0 b1 b2 xs h) ∙ e) in
    omega (arith, ap length found.4, length-drop (12 + size) bytes, found.1)

pub next_frame-rest :
    (bytes : List ℕ) (op : ℕ) (payload rest : List ℕ)
    → next_frame bytes ≡ frame op payload rest
    → length rest < length bytes
next_frame-rest bytes op payload rest e =
    next_frame-rest_cons bytes (next_frame-HasHeader bytes (λ k. cc)) op payload rest e

-- The cases of a frame, with the equation kept.
pub Frame-cases :
    (f : Frame)
    → (f ≡ short) ⊎ ((f ≡ too_large) ⊎ ((x : ℕ × List ℕ × List ℕ) × (f ≡ frame x.0 x.1 x.2)))
Frame-cases short = inl refl
Frame-cases too_large = inr (inl refl)
Frame-cases (frame op payload rest) = inr (inr ((op, payload, rest), refl))
