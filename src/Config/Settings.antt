-- ===== src/Config/Settings.antt =====
-- The settings of a document of sections, and that parse_config stores them.
use ovpn_manager.Prelude.{List, [], ◌∷◌, Option, none, some, Bytes}
use ovpn_manager.Config.{Config}
use ovpn_manager.Config.Document.{Item, entry, mapping}
use ovpn_manager.Config.Fields.{Part, name}

-- A top-level key with a scalar, or a section.
pub data Group : Type 0 where
  top : Bytes → Bytes → Group
  part : Part → List (Bytes × Bytes) → Group

abbrev pub item : Group → Item
item (top k v) = entry k v
item (part p ps) = mapping (name p) ps

-- The entries in order, each with the section that it stands in, if it stands in one.
abbrev pub entries_in :
    Part
    → List (Bytes × Bytes)
    → List (Option Part × Bytes × Bytes)
    → List (Option Part × Bytes × Bytes)
entries_in p [] rest = rest
entries_in p ((k, v) ∷ ps) rest = (some p, k, v) ∷ entries_in p ps rest

abbrev pub entries : List Group → List (Option Part × Bytes × Bytes)
entries [] = []
entries (top k v ∷ gs) = (none, k, v) ∷ entries gs
entries (part p ps ∷ gs) = entries_in p ps (entries gs)
