-- ===== src/Ids/Search.antt =====
-- What the id search of pkg/channeld/util.go returns.
use channeld.Base.{
  ℕ, zero, suc, ◌+◌, ◌-◌, ◌%◌, ◌≤◌, ◌<◌, ◌≡◌, ◌≢◌, ◌⊎◌, inl, inr, Bool, true, false, none, some,
  arith, ltb, if◌then◌else◌, Option-cases,
}
use channeld.Ids.{search_id, get_next_id, u32_mod}

search_id-total :
    (used : ℕ → Bool) (fuel i start lo hi : ℕ)
    → i ≤ hi + 1
    → hi + 1 < u32_mod
    → hi + 1 < fuel + i
    → search_id used fuel i start lo hi ≢ none
unfolding search_id
search_id-total used zero i start lo hi below bound enough = absurd (omega arith)
search_id-total used (suc fuel) i start lo hi below bound enough = ground (
  arith,
  search_id-total used fuel ((i + 1) % u32_mod) (if ltb start hi then start + 1 else lo) lo hi,
)

search_id-found :
    (used : ℕ → Bool) (fuel i start lo hi : ℕ) {id : ℕ}
    → lo ≤ hi
    → start ≤ hi
    → lo ≤ start + 1
    → search_id used fuel i start lo hi ≡ some (id, true)
    → (used id ≡ false) × (id ≤ hi) × ((id ≡ start) ⊎ (lo ≤ id))
unfolding search_id
search_id-found used zero i start lo hi {id} range begins near e = ground arith
search_id-found used (suc fuel) i start lo hi {id} range begins near e = ground (
  arith,
  search_id-found used fuel ((i + 1) % u32_mod) (if ltb start hi then start + 1 else lo) lo hi
      {id = id},
)

-- The rounds left, `hi + 1 - i`, cover the ids from `start` on, wrapping round at `hi`.
search_id-exhausted :
    (used : ℕ → Bool) (fuel i start lo hi k : ℕ) {id : ℕ}
    → lo ≤ k
    → k ≤ hi
    → start ≤ hi
    → lo ≤ start
    → hi + 1 < u32_mod
    → i ≤ hi + 1
    → ((start ≤ k) × (k + i < start + hi + 1)) ⊎ ((k < start) × (k + i < start + lo))
    → search_id used fuel i start lo hi ≡ some (id, false)
    → used k ≡ true
unfolding search_id
search_id-exhausted used zero i start lo hi k {id} above below range near bound round due e =
    ground arith
search_id-exhausted used (suc fuel) i start lo hi k {id} above below range near bound round due e =
    ground (
      arith,
      search_id-exhausted used fuel ((i + 1) % u32_mod) (if ltb start hi then start + 1 else lo) lo
          hi k {id = id},
    )

-- The search always ends, below the last value of a `uint32`.
pub get_next_id-total :
    (used : ℕ → Bool) (start lo hi : ℕ)
    → lo ≤ hi
    → hi + 1 < u32_mod
    → (id : ℕ) × (ok : Bool) × (get_next_id used start lo hi ≡ some (id, ok))
unfolding get_next_id
get_next_id-total used start lo hi range bound =
    elim (Option-cases (search_id used (hi + 2 - lo) lo start lo hi)) [
      | inl e ↦
          absurd
            (search_id-total used (hi + 2 - lo) lo start lo hi (omega arith) bound (omega arith) e)
      | inr ((id, ok), e) ↦ (id, ok, e)
    ]

-- An id that the search finds is free, and is the start or lies in the range.
pub get_next_id-fresh :
    (used : ℕ → Bool) (start lo hi : ℕ) {id : ℕ}
    → lo ≤ hi
    → start ≤ hi
    → lo ≤ start + 1
    → get_next_id used start lo hi ≡ some (id, true)
    → (used id ≡ false) × (id ≤ hi) × ((id ≡ start) ⊎ (lo ≤ id))
unfolding get_next_id
get_next_id-fresh used start lo hi = search_id-found used (hi + 2 - lo) lo start lo hi

-- From a start in the range, the search gives up only if every id of the range is in use.
pub get_next_id-full :
    (used : ℕ → Bool) (start lo hi k : ℕ) {id : ℕ}
    → lo ≤ start
    → start ≤ hi
    → hi + 1 < u32_mod
    → lo ≤ k
    → k ≤ hi
    → get_next_id used start lo hi ≡ some (id, false)
    → used k ≡ true
unfolding get_next_id
get_next_id-full used start lo hi k near range bound above below =
    search_id-exhausted used (hi + 2 - lo) lo start lo hi k above below range near bound
      (omega arith) (omega arith)

-- A start that is free is taken at once.
pub get_next_id-start :
    (used : ℕ → Bool) (start lo hi : ℕ)
    → lo ≤ hi
    → used start ≡ false
    → get_next_id used start lo hi ≡ some (start, true)
unfolding get_next_id search_id
get_next_id-start used start lo hi range free =
    let e : hi + 2 - lo ≡ suc (hi + 1 - lo) = omega arith in rw e (ground arith)
