-- ===== src/Client/Stream/Chunks.antt =====
-- TCP hands its bytes over in pieces of any size: how the stream is cut up makes no difference.
use r_type_j_a_m_e_s.Base.{
  ℕ, zero, suc, ◌<◌, ◌≡◌, refl, ap, sym, ◌∙◌, inl, inr, true, false, Option, none, some, List, ◌++◌,
  arith, Bool-cases, length,
}
use r_type_j_a_m_e_s.Client.Header.{◌>>=◌}
use r_type_j_a_m_e_s.Client.State.{ServerConnection, disconnect}
use r_type_j_a_m_e_s.Client.Handlers.{dispatch}
use r_type_j_a_m_e_s.Client.Stream.{
  short, too_large, frame, next_frame, on_frame, receive, receive_all, header_read_failed,
  other_error,
}
use r_type_j_a_m_e_s.Client.Stream.Frames.{
  next_frame-append, next_frame-append_large, next_frame-rest, Frame-cases,
}

module _ (fuel : ℕ) (bytes : List ℕ) (s : ServerConnection) where
  -- The cases of one turn.
  receive-closed :
      s.tcp_open ≡ false
      → receive (suc fuel) bytes s ≡ some (header_read_failed other_error s, bytes)
  unfolding receive
  receive-closed closed = rw (closed, receive) refl

  receive-short :
      s.tcp_open ≡ true → next_frame bytes ≡ short → receive (suc fuel) bytes s ≡ some (s, bytes)
  unfolding receive on_frame
  receive-short opened e = rw (opened, e) refl

  receive-large :
      s.tcp_open ≡ true
      → next_frame bytes ≡ too_large
      → receive (suc fuel) bytes s ≡ some (disconnect s, bytes)
  unfolding receive on_frame
  receive-large opened e = rw (opened, e) refl

  receive-frame :
      (op : ℕ) (payload rest : List ℕ)
      → s.tcp_open ≡ true
      → next_frame bytes ≡ frame op payload rest
      → receive (suc fuel) bytes s ≡ (dispatch op payload s >>= λ t. receive fuel rest t)
  unfolding receive on_frame
  receive-frame op payload rest opened e = rw (opened, e) refl

after :
    Option ServerConnection
    → (ServerConnection → Option (ServerConnection × List ℕ))
    → Option (ServerConnection × List ℕ)
after o f = o >>= f

after-same :
    (o : Option ServerConnection) (f g : ServerConnection → Option (ServerConnection × List ℕ))
    → ((t : ServerConnection) → f t ≡ g t)
    → after o f ≡ after o g
unfolding after
after-same none f g h = refl
after-same (some t) f g h = h t

-- One unit of fuel for each byte and one more is enough: no amount above that changes anything.
pub receive-enough :
    (n m : ℕ) (bytes : List ℕ) (s : ServerConnection)
    → length bytes < n
    → length bytes < m
    → receive n bytes s ≡ receive m bytes s
unfolding after
receive-enough zero m bytes s h k = absurd (omega arith)
receive-enough (suc n) zero bytes s h k = absurd (omega arith)
receive-enough (suc n) (suc m) bytes s h k = elim (Bool-cases s.tcp_open) [
  | inr closed ↦ receive-closed n bytes s closed ∙ sym (receive-closed m bytes s closed)
  | inl opened ↦ elim (Frame-cases (next_frame bytes)) [
    | inl e ↦ receive-short n bytes s opened e ∙ sym (receive-short m bytes s opened e)
    | inr (inl e) ↦ receive-large n bytes s opened e ∙ sym (receive-large m bytes s opened e)
    | inr (inr ((op, payload, rest), e)) ↦
        let less = next_frame-rest bytes op payload rest e in
        receive-frame n bytes s op payload rest opened e
        ∙ after-same (dispatch op payload s) _ _
            (λ t. receive-enough n m rest t (omega arith) (omega arith))
        ∙ sym (receive-frame m bytes s op payload rest opened e)
  ]
]

-- A message at the head of the stream is handled, and the rest after it.
pub receive_all-frame :
    (bytes : List ℕ) (s : ServerConnection) (op : ℕ) (payload rest : List ℕ)
    → s.tcp_open ≡ true
    → next_frame bytes ≡ frame op payload rest
    → receive_all bytes s ≡ (dispatch op payload s >>= λ t. receive_all rest t)
unfolding receive_all after
receive_all-frame bytes s op payload rest opened e =
    let less = next_frame-rest bytes op payload rest e in
    receive-frame (length bytes) bytes s op payload rest opened e
    ∙ after-same (dispatch op payload s) _ _
        (λ t. receive-enough (length bytes) (suc (length rest)) rest t (omega arith) (omega arith))

receive_all-closed :
    (bytes : List ℕ) (s : ServerConnection)
    → s.tcp_open ≡ false
    → receive_all bytes s ≡ some (header_read_failed other_error s, bytes)
unfolding receive_all
receive_all-closed bytes s closed = receive-closed (length bytes) bytes s closed

-- Two equations of one result.
same_result :
    (o : Option (ServerConnection × List ℕ)) (u t : ServerConnection) (xs rest more : List ℕ)
    (r : Option (ServerConnection × List ℕ))
    → o ≡ some (u, xs)
    → o ≡ some (t, rest)
    → receive_all (xs ++ more) u ≡ r
    → receive_all (rest ++ more) t ≡ r
same_result o u t xs rest more r h k e =
    let states : t ≡ u = cc in
    let lists : rest ≡ xs = cc in
    ap (λ ys. receive_all (ys ++ more) t) lists ∙ ap (receive_all (xs ++ more)) states ∙ e

-- A closed connection stays as it is, whatever arrives.
failed_again :
    (bytes more : List ℕ) (s : ServerConnection)
    → s.tcp_open ≡ false
    → receive_all (bytes ++ more) (header_read_failed other_error s) ≡ receive_all (bytes ++ more) s
unfolding header_read_failed
failed_again bytes more s closed =
    receive_all-closed (bytes ++ more) (header_read_failed other_error s) closed
    ∙ sym (receive_all-closed (bytes ++ more) s closed)

disconnected_before :
    (bytes more : List ℕ) (s : ServerConnection)
    → s.tcp_open ≡ true
    → next_frame bytes ≡ too_large
    → receive_all (bytes ++ more) (disconnect s) ≡ receive_all (bytes ++ more) s
unfolding receive_all header_read_failed disconnect
disconnected_before bytes more s opened large =
    receive_all-closed (bytes ++ more) (disconnect s) refl
    ∙ sym (
        receive-large (length (bytes ++ more)) (bytes ++ more) s opened
          (next_frame-append_large bytes more large))

after-some :
    (o : Option ServerConnection) (f : ServerConnection → Option (ServerConnection × List ℕ))
    (r : ServerConnection × List ℕ)
    → after o f ≡ some r
    → (u : ServerConnection) × (o ≡ some u) × (f u ≡ some r)
unfolding after
after-some none f r h = absurd (let no : ⊥ = cc in no)
after-some (some u) f r h = (u, refl, h)

-- The statement of `receive_all-append`, for any amount of fuel that is enough.
resume :
    (n : ℕ) (bytes more rest : List ℕ) (s t : ServerConnection)
    → length bytes < n
    → receive n bytes s ≡ some (t, rest)
    → receive_all (rest ++ more) t ≡ receive_all (bytes ++ more) s
unfolding after
resume zero bytes more rest s t h e = absurd (omega arith)
resume (suc n) bytes more rest s t h e = elim (Bool-cases s.tcp_open) [
  | inr closed ↦
      same_result _ _ t bytes rest more _ (receive-closed n bytes s closed) e
        (failed_again bytes more s closed)
  | inl opened ↦ elim (Frame-cases (next_frame bytes)) [
    | inl f ↦ same_result _ s t bytes rest more _ (receive-short n bytes s opened f) e refl
    | inr (inl f) ↦
        same_result _ _ t bytes rest more _ (receive-large n bytes s opened f) e
          (disconnected_before bytes more s opened f)
    | inr (inr ((op, payload, later), f)) ↦
        let less = next_frame-rest bytes op payload later f in
        let turn =
          after-some (dispatch op payload s) (λ u. receive n later u) (t, rest)
            (sym (receive-frame n bytes s op payload later opened f) ∙ e) in
        resume n later more rest turn.0 t (omega arith) turn.2
        ∙ sym (
            receive_all-frame (bytes ++ more) s op payload (later ++ more) opened
              (next_frame-append bytes more op payload later f)
            ∙ ap (λ o. after o (λ u. receive_all (later ++ more) u)) turn.1)
  ]
]

-- Where the client has handled what arrived of a stream, with the connection and the unfinished
-- bytes that this leaves, going on with more bytes behind these gives what the whole stream gives
-- when it arrives at once: the messages, their order and the faults do not depend on the pieces
-- that TCP delivers.
pub receive_all-append :
    (bytes more rest : List ℕ) (s t : ServerConnection)
    → receive_all bytes s ≡ some (t, rest)
    → receive_all (rest ++ more) t ≡ receive_all (bytes ++ more) s
unfolding receive_all
receive_all-append bytes more rest s t e =
    resume (suc (length bytes)) bytes more rest s t (omega arith) e
