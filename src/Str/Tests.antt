-- ===== src/Str/Tests.antt =====
-- A string of src/str.c in three pieces, and none at all.
use tangent.Base.{ℕ, ◌≡◌, refl, none, some, List, [], ◌∷◌, ◌++◌}
use tangent.Base.Bind.{◌>>=◌}
use tangent.Str.{LinkedString, lstr_empty, lstr_new, lstr_flat, total_len}
use tangent.Str.Flat.{add_all, concat, lstr_flat-add_all}

abbrev others : List (List ℕ)
others = (b'c' ∷ []) ∷ [] ∷ (b'd' ∷ b'e' ∷ []) ∷ []

lstr_flat-add_all_example :
    (str : LinkedString) × ((lstr_new (b'a' ∷ b'b' ∷ []) >>= λ s. add_all s others) ≡ some str)
    × (lstr_flat str ≡ some ((b'a' ∷ b'b' ∷ []) ++ concat others))
lstr_flat-add_all_example = lstr_flat-add_all (b'a' ∷ b'b' ∷ []) others

-- An empty string has no room for the NUL.
nothing : lstr_flat lstr_empty ≡ none
unfolding lstr_flat total_len
nothing = refl
