-- ===== src/Rename/Examples.antt =====
-- The open file of the small database takes the name of the unused one.
use pcfs.Base.{◌≡◌, refl, some}
use pcfs.Database.{State}
use pcfs.Database.Invariant.{Safe}
use pcfs.Database.Examples.{small, small-Safe, unused_file, used_file}
use pcfs.Rename.{direct_rename}
use pcfs.Rename.Moved.{Renamed, direct_rename-Renamed}

direct_rename-Renamed_example :
    (t : State) × (direct_rename 2 1 small ≡ some t)
    × Safe 0 t
    × Renamed 2 1 used_file unused_file small t
direct_rename-Renamed_example =
    direct_rename-Renamed 0 2 1 used_file unused_file small small-Safe refl refl refl refl
