-- ===== src/Boost.antt =====
-- What the program takes from Boost: `boost::split(strs, path, boost::is_any_of("/"))` of
-- init_bitfs (FS.cpp). Its code is not part of the repository, so it is a parameter.
use bitfs.Base.{ℕ, ◌≡◌, ◌≢◌, List, [], ◌∷◌, ◌++◌}
use bitfs.Base.Text.{Text, Lacks}

abbrev pub slash : ℕ
slash = b'/'

-- The components with a separator between any two.
unfoldable pub join : List Text → Text
join [] = []
join (s ∷ []) = s
join (s ∷ s' ∷ rest) = s ++ (slash ∷ join (s' ∷ rest))

abbrev pub AllLack : ℕ → List Text → Type 0
AllLack b [] = Unit
AllLack b (s ∷ rest) = Lacks b s × AllLack b rest

-- The documented behaviour of split without token compression: at least one component, no
-- separator inside a component, and nothing lost.
pub record IsSplit (split : Text → List Text) : Type 0 where
  pub some_component : (s : Text) → split s ≢ []
  pub no_separator : (s : Text) → AllLack slash (split s)
  pub join_split : (s : Text) → join (split s) ≡ s
