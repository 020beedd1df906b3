-- ===== src/Ids.antt =====
-- pkg/channeld/util.go: the search for an id that is not in use, and the hash and map helpers.
pub mod Search
use channeld.Base.{
  ℕ, zero, suc, ◌+◌, ◌-◌, ◌*◌, ◌%◌, Bool, true, false, Option, none, some, List, [], ◌∷◌, map, ltb,
  leb, has_key, if◌then◌else◌,
}

abbrev pub u32_mod : ℕ
u32_mod = 4294967296

-- The loop `for i := min; i <= max; i++` over `uint32`: `used` is the `ok` of `m.Load`, and `none`
-- says that the fuel ran out.
pub search_id : (ℕ → Bool) → ℕ → ℕ → ℕ → ℕ → ℕ → Option (ℕ × Bool)
search_id used zero i start lo hi = none
search_id used (suc fuel) i start lo hi =
    let rest =
      search_id used fuel ((i + 1) % u32_mod) (if ltb start hi then start + 1 else lo) lo hi in
    if leb i hi then if used start then rest else some (start, true) else some (0, false)

-- One round for each id of the range and one to leave the loop.
unfoldable pub get_next_id : (ℕ → Bool) → ℕ → ℕ → ℕ → Option (ℕ × Bool)
unfolding search_id
get_next_id used start lo hi = search_id used (hi + 2 - lo) lo start lo hi

-- `hash*31 + uint32(c)`. The loop `for c := range s` binds the byte offsets at which the characters
-- of the string start, so those are what is hashed.
pub hash_from : ℕ → List ℕ → ℕ
hash_from hash [] = hash
hash_from hash (offset ∷ rest) = hash_from ((hash * 31 + offset) % u32_mod) rest

pub hash_string : List ℕ → ℕ
unfolding hash_from
hash_string offsets = hash_from 17 offsets

-- The entries of one map whose keys are not in the other.
unfoldable pub difference {ℓ κ} :
    {V : Type ℓ} {W : Type κ} → List (ℕ × V) → List (ℕ × W) → List (ℕ × V)
difference [] other = []
difference ((k, v) ∷ this) other =
    let rest = difference this other in if has_key k other then rest else (k, v) ∷ rest

-- The element types are all unsigned integers of 32 bits.
unfoldable pub copy_array : List ℕ → List ℕ
copy_array [] = []
copy_array (v ∷ arr) = v % u32_mod ∷ copy_array arr
