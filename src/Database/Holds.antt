-- ===== src/Database/Holds.antt =====
-- What a caller of `direct_open` may rely on.
use pcfs.Base.{ℕ, ◌≡◌, Bool, true, false, ◌&&◌, List, some, has}
use pcfs.Types.{File, is_busy}
use pcfs.Database.{State, Opened, ready, waiting}

-- The file that `direct_open` came back with.
abbrev pub opened : Opened → ℕ
opened (ready id) = id
opened (waiting id) = id

-- The state holds a listed file with the name, not marked as deleted, at `opened o`. A caller that
-- wants a stable file gets it at once exactly if nothing runs on it.
pub record Holds (name : List ℕ) (stabile : Bool) (o : Opened) (t : State) : Type 0 where
  pub file : File
  pub at : t.heap (opened o) ≡ some file
  pub named : file.name ≡ name
  pub listed : has (opened o) t.files ≡ true
  pub revived : file.deleted ≡ false
  pub settled : (stabile && is_busy file.status) ≡ (elim o [ ready _ ↦ false | waiting _ ↦ true ])
