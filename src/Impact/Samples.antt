-- ===== src/Impact/Samples.antt =====
-- The match of paths at concrete inputs: an instance of the theorem.
use research_agent_ops.Base.{◌≡◌, refl, ◌↔◌, true, false, [], ◌∷◌, ◌++◌, Bytes}
use research_agent_ops.Impact.Paths.{
  recursive, slash, Covers, path_dependency_matches, path_dependency_matches_iff,
}

abbrev data_folder : Bytes
data_folder = b'd' ∷ b'a' ∷ []

abbrev raw_file : Bytes
raw_file = data_folder ++ slash ∷ b'r' ∷ []

raw_file_matches : path_dependency_matches (data_folder ++ recursive) raw_file ≡ true
unfolding path_dependency_matches
raw_file_matches = refl

longer_name_differs :
    path_dependency_matches (data_folder ++ recursive) (data_folder ++ b'r' ∷ []) ≡ false
unfolding path_dependency_matches
longer_name_differs = refl

path_dependency_matches_iff_example :
    (path_dependency_matches (data_folder ++ recursive) raw_file ≡ true)
    ↔ Covers (data_folder ++ recursive) raw_file
path_dependency_matches_iff_example =
    path_dependency_matches_iff (data_folder ++ recursive) raw_file
