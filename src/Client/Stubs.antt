-- ===== src/Client/Stubs.antt =====
-- The stub ids of callbacks (`Send` of pkg/client/client.go).
use channeld.Base.{
  ℕ, zero, suc, ◌+◌, ◌≤◌, ◌<◌, ◌≡◌, ◌≢◌, sym, ap, ◌∙◌, true, false, some, List, [], ◌∷◌, ◌==◌, leb,
  if◌then◌else◌, length, lookup, insert, lookup-insert, has_key, Bool-cases, inl, inr, arith,
}
use channeld.Client.{ChanneldClient, ClientHandler}
use channeld.Client.Traffic.{free_stub, register_callback}

-- How many callbacks there are from an id on.
abbrev from_id : ℕ → List (ℕ × ClientHandler) → ℕ
from_id i [] = 0
from_id i ((k, h) ∷ m) = (if leb i k then 1 else 0) + from_id i m

from_id-le : (i : ℕ) (m : List (ℕ × ClientHandler)) → from_id i m ≤ length m
from_id-le i [] = omega arith
from_id-le i ((k, h) ∷ m) = ground (arith, from_id-le i m)

from_id_mono : (i : ℕ) (m : List (ℕ × ClientHandler)) → from_id (suc i) m ≤ from_id i m
from_id_mono i [] = omega arith
from_id_mono i ((k, h) ∷ m) = ground (arith, from_id_mono i m)

from_id-lt :
    (i : ℕ) (m : List (ℕ × ClientHandler)) → has_key i m ≡ true → from_id (suc i) m < from_id i m
unfolding lookup
from_id-lt i [] there = ground (arith, there)
from_id-lt i ((k, h) ∷ m) there = elim (Bool-cases (k == i)) [
  | inl same ↦ ground (arith, same, from_id_mono i m)
  | inr other ↦ ground (arith, other, there, from_id-lt i m)
]

-- The search ends at an id without a callback.
free_stub-free :
    (m : List (ℕ × ClientHandler)) (fuel i : ℕ)
    → from_id i m < fuel
    → has_key (free_stub m fuel i) m ≡ false
unfolding free_stub
free_stub-free m zero i h = ground (arith, h)
free_stub-free m (suc fuel) i h = elim (Bool-cases (has_key i m)) [
  | inl taken ↦
      rw (free_stub, taken) (free_stub-free m fuel (suc i) (omega (arith, h, from_id-lt i m taken)))
  | inr free ↦ rw (free_stub, free) free
]

-- A callback gets a stub id that had none and that is not 0, as 0 is reserved; under this id it is
-- found, and the other callbacks stay.
pub register_callback-fresh :
    (c : ChanneldClient) (callback : ClientHandler)
    → has_key 0 c.stub_callbacks ≡ true
    → let (c', stub_id) = register_callback c (some callback) in
      (stub_id ≢ 0)
      × (has_key stub_id c.stub_callbacks ≡ false)
      × (lookup stub_id c'.stub_callbacks ≡ some callback)
      × ((j : ℕ) → j ≢ stub_id → lookup j c'.stub_callbacks ≡ lookup j c.stub_callbacks)
unfolding register_callback
register_callback-fresh c callback reserved = (not_zero, free, found, others)
  where
    m : List (ℕ × ClientHandler)
    m = c.stub_callbacks

    stub_id : ℕ
    stub_id = free_stub m (suc (length m)) 0

    free : has_key stub_id m ≡ false
    free = free_stub-free m (suc (length m)) 0 (omega (arith, from_id-le 0 m))

    not_zero : stub_id ≢ 0
    not_zero e = ground (arith, sym free ∙ ap (λ i. has_key i m) e ∙ reserved)

    found : lookup stub_id (insert stub_id callback m) ≡ some callback
    found = ground (arith, lookup-insert stub_id stub_id callback m)

    others : (j : ℕ) → j ≢ stub_id → lookup j (insert stub_id callback m) ≡ lookup j m
    others j other = ground (arith, other, lookup-insert stub_id j callback m)
