-- ===== src/CommitGraph/Sets.antt =====
-- Sets of object identifiers, as lib/commit_graph.c uses them.
use gameoftrees.Base.{
  ℕ, ◌≡◌, ◌≢◌, ◌⊎◌, Bool, true, false, ◌&&◌, ◌||◌, not, List, [], ◌∷◌, Bytes, bytes_eq, All, length,
}
use gameoftrees.Error.{Error, no_obj, Result, ok, err}

-- No identifier is there twice.
abbrev pub IsDistinct : List Bytes → Type 0
IsDistinct [] = Unit
IsDistinct (x ∷ l) = All (λ y. y ≢ x) l × IsDistinct l

abbrev pub IsIn : Bytes → List Bytes → Type 0
IsIn q [] = ⊥
IsIn q (x ∷ l) = (q ≡ x) ⊎ IsIn q l

-- The test of an error's code for GOT_ERR_NO_OBJ.
unfoldable pub is_no_obj : Error → Bool
is_no_obj no_obj = true
is_no_obj _ = false

pub record IdSets : Type 1 where
  pub Set : Type 0
  pub empty : Set
  pub contains : Set → Bytes → Bool
  pub add : Set → Bytes → Result Set
  pub remove : Set → Bytes → Result Set
  -- The order of got_object_idset_for_each.
  pub ids : Set → List Bytes
  pub num_elements : Set → ℕ
  pub IsWellFormed : Set → Type 0
  pub empty_law : IsWellFormed empty × ((q : Bytes) → contains empty q ≡ false)
  pub add_law :
      (s : Set) (id : Bytes) (t : Set)
      → IsWellFormed s
      → contains s id ≡ false
      → add s id ≡ ok t
      → IsWellFormed t × ((q : Bytes) → contains t q ≡ (bytes_eq q id || contains s q))
  pub remove_law :
      (s : Set) (id : Bytes) (t : Set)
      → IsWellFormed s
      → remove s id ≡ ok t
      → IsWellFormed t × ((q : Bytes) → contains t q ≡ (not (bytes_eq q id) && contains s q))
  pub remove_none :
      (s : Set) (id : Bytes) (e : Error)
      → IsWellFormed s
      → remove s id ≡ err e
      → is_no_obj e ≡ true
      → contains s id ≡ false
  pub ids_law :
      (s : Set)
      → IsWellFormed s
      → IsDistinct (ids s)
        × All (λ q. contains s q ≡ true) (ids s)
        × ((q : Bytes) → contains s q ≡ true → IsIn q (ids s))
  pub num_law : (s : Set) → IsWellFormed s → num_elements s ≡ length (ids s)
