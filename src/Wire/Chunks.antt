-- ===== src/Wire/Chunks.antt =====
-- The bytes of a connection, cut into reads (`receive` and the loop of `startGoroutines` of
-- pkg/channeld/connection.go).
use channeld.Base.{
  ℕ, ◌≡◌, refl, sym, ap, ◌∙◌, subst, true, false, if◌then◌else◌, Bool-cases, inl, inr, List, [],
  ◌∷◌, ◌++◌, length, arith,
}
use mathlib.Core.List.{append_assoc, append-nil}
use channeld.World.Types.{ConnRef, World, Env}
use channeld.World.Access.{is_closing}
use channeld.Wire.{
  Wire, Reading, reading, closed_by_error, panicked, out_of_rounds, receive, read_packets,
}
use channeld.Wire.Rounds.{
  read_packets-kept, continue, read_packets-append, receive-read_packets, KeepsRest,
  read_packets-KeepsRest,
}

-- One read after another: after an error or a panic there is none.
-- The loop of `startGoroutines` around `receive`: a closing connection is not read any more.
abbrev pub read_more : Env → ConnRef → Reading → List ℕ → Reading
read_more env c (reading w wire) chunk =
    if is_closing w c then reading w wire else receive env c w wire chunk
read_more env c (closed_by_error w) chunk = closed_by_error w
read_more env c panicked chunk = panicked
read_more env c out_of_rounds chunk = out_of_rounds

abbrev pub read_all : Env → ConnRef → Reading → List (List ℕ) → Reading
read_all env c r [] = r
read_all env c r (chunk ∷ chunks) = read_all env c (read_more env c r chunk) chunks

-- A connection that goes on is open.
abbrev pub StillOpen : ConnRef → Reading → Type 0
StillOpen c (reading w wire) = is_closing w c ≡ false
StillOpen c (closed_by_error w) = Unit {0}
StillOpen c panicked = Unit {0}
StillOpen c out_of_rounds = Unit {0}

-- The loop without its test.
abbrev receive_more : Env → ConnRef → Reading → List ℕ → Reading
receive_more env c (reading w wire) chunk = receive env c w wire chunk
receive_more env c (closed_by_error w) chunk = closed_by_error w
receive_more env c panicked chunk = panicked
receive_more env c out_of_rounds chunk = out_of_rounds

abbrev receive_all : Env → ConnRef → Reading → List (List ℕ) → Reading
receive_all env c r [] = r
receive_all env c r (chunk ∷ chunks) = receive_all env c (receive_more env c r chunk) chunks

read_all-closing :
    (env : Env) (c : ConnRef) (w : World) (wire : Wire) (chunks : List (List ℕ))
    → is_closing w c ≡ true
    → read_all env c (reading w wire) chunks ≡ reading w wire
read_all-closing env c w wire [] closing = refl
read_all-closing env c w wire (chunk ∷ chunks) closing =
    ap (λ (r : Reading). read_all env c r chunks) (ground (arith, closing))
    ∙ read_all-closing env c w wire chunks closing

-- While the connection is open, the test makes no difference.
read_all-receive_all :
    (env : Env) (c : ConnRef) (r : Reading) (chunks : List (List ℕ))
    → StillOpen c (read_all env c r chunks)
    → read_all env c r chunks ≡ receive_all env c r chunks
read_all-receive_all env c r [] open_ = refl
read_all-receive_all env c (reading w wire) (chunk ∷ chunks) open_ =
    elim (Bool-cases (is_closing w c)) [
      | inl closing ↦ absurd (
          ground (
            arith,
            closing,
            subst (StillOpen c) (read_all-closing env c w wire (chunk ∷ chunks) closing) open_,
          ))
      | inr other ↦
          let e : read_more env c (reading w wire) chunk ≡ receive env c w wire chunk =
            ground (arith, other) in
          ap (λ (r : Reading). read_all env c r chunks) e
          ∙ read_all-receive_all env c (receive env c w wire chunk) chunks
              (subst (λ (r : Reading). StillOpen c (read_all env c r chunks)) e open_)
    ]
read_all-receive_all env c (closed_by_error w) (chunk ∷ chunks) open_ =
    read_all-receive_all env c (closed_by_error w) chunks open_
read_all-receive_all env c panicked (chunk ∷ chunks) open_ =
    read_all-receive_all env c panicked chunks open_
read_all-receive_all env c out_of_rounds (chunk ∷ chunks) open_ =
    read_all-receive_all env c out_of_rounds chunks open_

abbrev pub joined : List (List ℕ) → List ℕ
joined [] = []
joined (chunk ∷ chunks) = chunk ++ joined chunks

receive_more-continue :
    (env : Env) (c : ConnRef) (wire : Wire) (r : Reading) (b : List ℕ)
    → KeepsRest env c wire r
    → receive_more env c r b ≡ continue env c wire r b
receive_more-continue env c wire (reading w wire') b h =
    receive-read_packets env c w wire' b
    ∙ ap
        (λ (t : Wire).
          read_packets env c t (length (wire'.read_buffer ++ b)) w wire'.compression_type
            (wire'.read_buffer ++ b))
        h
    ∙ read_packets-kept env c wire wire'.compression_type wire'.read_buffer
        (length (wire'.read_buffer ++ b)) w wire'.compression_type (wire'.read_buffer ++ b)
receive_more-continue env c wire (closed_by_error w) b h = refl
receive_more-continue env c wire panicked b h = refl
receive_more-continue env c wire out_of_rounds b h = refl

receive_more-receive :
    (env : Env) (c : ConnRef) (w : World) (wire : Wire) (a b : List ℕ)
    → receive_more env c (receive env c w wire a) b ≡ receive env c w wire (a ++ b)
receive_more-receive env c w wire a b =
    ap (λ r. receive_more env c r b) (receive-read_packets env c w wire a)
    ∙ receive_more-continue env c wire
        (read_packets env c wire (length buffer) w wire.compression_type buffer) b
        (read_packets-KeepsRest env c wire (length buffer) w wire.compression_type buffer)
    ∙ sym (
        read_packets-append env c wire (length buffer) (length (buffer ++ b)) w
          wire.compression_type buffer b (omega arith) (omega arith))
    ∙ ap (λ bytes. read_packets env c wire (length bytes) w wire.compression_type bytes)
        (append_assoc wire.read_buffer a b)
    ∙ sym (receive-read_packets env c w wire (a ++ b))
  where
    buffer : List ℕ
    buffer = wire.read_buffer ++ a

-- Reads without the test come to one read of all the bytes.
receive_all-joined :
    (env : Env) (c : ConnRef) (w : World) (wire : Wire) (chunk : List ℕ) (chunks : List (List ℕ))
    → receive_all env c (reading w wire) (chunk ∷ chunks)
      ≡ receive env c w wire (chunk ++ joined chunks)
receive_all-joined env c w wire chunk [] = ap (receive env c w wire) (sym (append-nil chunk))
receive_all-joined env c w wire chunk (next ∷ chunks) =
    ap (λ r. receive_all env c r chunks) (receive_more-receive env c w wire chunk next)
    ∙ receive_all-joined env c w wire (chunk ++ next) chunks
    ∙ ap (receive env c w wire) (append_assoc chunk next (joined chunks))

-- However the bytes of a connection are cut into reads, the messages are handled in the same way and
-- the same bytes are kept as if they came in one read, where the connection is still open after the
-- last read, or an error or a panic ends the reading. (A connection that a message closes is not
-- read again.)
pub read_all-joined :
    (env : Env) (c : ConnRef) (w : World) (wire : Wire) (chunk : List ℕ) (chunks : List (List ℕ))
    → StillOpen c (read_all env c (reading w wire) (chunk ∷ chunks))
    → read_all env c (reading w wire) (chunk ∷ chunks)
      ≡ receive env c w wire (chunk ++ joined chunks)
read_all-joined env c w wire chunk chunks open_ =
    read_all-receive_all env c (reading w wire) (chunk ∷ chunks) open_
    ∙ receive_all-joined env c w wire chunk chunks
