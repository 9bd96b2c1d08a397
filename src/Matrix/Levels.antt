-- ===== src/Matrix/Levels.antt =====
-- crates/openwave-core/src/model.rs: the range of levels.
use openwave.Prelude.{◌≡◌, refl, arith}
use openwave.Prelude.Int.{pos}
use openwave.Prelude.Float.{Float, clamp_bounds, clamp_inside, clamp_finite}
use openwave.Model.{ok}
use openwave.Matrix.{level, command_level}

module _ (fl : Float) where
  open fl use {F, is_finite, lt, of_int}

  -- A level that is brought into 0..1, as a store is read, is one that a command may set.
  pub level-command_level : (x : F) {y : F} → level fl x ≡ ok y → command_level fl y ≡ ok y
  unfolding level command_level
  level-command_level x h = ground (
    arith,
    h,
    clamp_bounds fl (of_int (pos 0)) (of_int (pos 1)) x,
    clamp_finite fl (of_int (pos 0)) (of_int (pos 1)) x,
    fl.of_int_lt (pos 1) (pos 0) refl refl,
    fl.of_int_finite (pos 0) refl,
    fl.of_int_finite (pos 1) refl,
  )

  -- A level that a command may set is stored as it is.
  pub command_level-level : (x : F) {y : F} → command_level fl x ≡ ok y → level fl x ≡ ok x
  unfolding level command_level
  command_level-level x h = ground (arith, h, clamp_inside fl (of_int (pos 0)) (of_int (pos 1)) x)
