-- ===== src/Tests/Kvdb.antt =====
-- A database of flags for the tests: it never fails, and commits nothing.
use text.Mathlib.Text.{◌==◌ as str_eq}
use frameworks_system_ota.Prelude.{
  String, Bool, true, false, Option, none, some, refl, if◌then◌else◌, ◌≡◌,
}
use frameworks_system_ota.Prelude.Int.{pos}
use frameworks_system_ota.Bootctl.Kvdb.{Kvdb, IsKvdb}

abbrev pub or_default : Option Bool → Bool → Bool
or_default none d = d
or_default (some b) d = b

abbrev pub memory : Kvdb
memory = record {
  Db = String → Option Bool;
  property_set_bool = λ k v db. (pos 0, λ j. if str_eq k j then some v else db j);
  property_get_bool = λ j d db. or_default (db j) d;
  property_commit = λ db. (pos 0, db);
}

or_default-if :
    (b v d : Bool) (o : Option Bool)
    → or_default (if b then some v else o) d ≡ (if b then v else or_default o d)
or_default-if true v d o = refl
or_default-if false v d o = refl

pub memory-IsKvdb : IsKvdb memory
memory-IsKvdb = record {
  get-set = λ k j v d db h. or_default-if (str_eq k j) v d (db j);
  get-commit = λ j d db. refl;
}
