-- ===== src/Config/Items.antt =====
-- server/internal/config/config.go: lists of values
use auth_middleware.Prelude.{String, List, [], ◌∷◌, ◌==◌, if◌then◌else◌}
use auth_middleware.Text.{split, trim_space}

unfoldable pub trimmed_items : List String → List String
unfolding trim_space
trimmed_items [] = []
trimmed_items (item ∷ items) =
    let rest = trimmed_items items in if trim_space item == "" then rest else trim_space item ∷ rest

-- splitList
unfoldable pub split_list : String → List String
unfolding trimmed_items split
split_list value = let (item, others) = split value b',' in trimmed_items (item ∷ others)
