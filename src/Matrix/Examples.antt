-- ===== src/Matrix/Examples.antt =====
-- Concrete ids and levels for crates/openwave-core/src/model.rs.
use openwave.Prelude.{String, Bool, true, [], ◌≡◌, refl, all}
use openwave.Prelude.Dict.{keys, get}
use openwave.Prelude.Int.{ℤ, pos}
use openwave.Prelude.Float.{int_float, clamp}
use openwave.Model.{ok}
use openwave.Matrix.{cell_key, parse_cell_key, level, default_mixes, output, MatrixState}
use openwave.Matrix.CellKey.{is_id, parse_cell_key-cell_key}

abbrev as_is : String → String
as_is s = s

parse_cell_key-cell_key_example :
    parse_cell_key as_is (cell_key "0a1b2c3d4e5f" "personal") ≡ ok ("0a1b2c3d4e5f", "personal")
parse_cell_key-cell_key_example = parse_cell_key-cell_key as_is "0a1b2c3d4e5f" "personal" refl refl

loud_level : level int_float (pos 7) ≡ ok (pos 1)
unfolding level clamp
loud_level = refl

-- The static ids are valid.
default_mixes_ids : all is_id (keys (default_mixes {V = Bool})) ≡ true
unfolding default_mixes
default_mixes_ids = refl

abbrev fresh_matrix : MatrixState ℤ Bool
fresh_matrix = record { cells = []; outputs = []; volumes = []; extra = [] }

personal_is_auto : output fresh_matrix "personal" ≡ "auto"
unfolding output get
personal_is_auto = refl
