-- ===== src/Migrator.antt =====
-- internal/store/migrator.go: which migration files there are, and the run that applies those that the
-- database has not recorded yet. The driver is a parameter: what each of its calls makes of a state.
use ai_proxy_centranity.Base.{
  ℕ, suc, Bool, true, false, ◌&&◌, not, Option, none, some, List, [], ◌∷◌, ◌++◌, map, if◌then◌else◌,
}
use ai_proxy_centranity.Base.Text.{Text, text, precedes, has_suffix, contains, trim_prefix}
pub mod Pending
pub mod Applying
mod Examples

pub record Entry : Type 0 where
  pub name : Text
  pub is_dir : Bool

unfoldable pub insert_sorted : Text → List Text → List Text
insert_sorted s [] = s ∷ []
insert_sorted s (t ∷ ts) =
    let rest = insert_sorted s ts in if precedes t s then t ∷ rest else s ∷ t ∷ ts

-- `sort.Strings`
unfoldable pub sorted : List Text → List Text
sorted [] = []
sorted (s ∷ ss) = insert_sorted s (sorted ss)

-- `filepath.Join` of a clean directory and a name.
abbrev pub join : Text → Text → Text
join dir name = dir ++ 47 ∷ name

abbrev pub is_up : Entry → Bool
is_up e = not e.is_dir && has_suffix e.name (text ".up.sql")

unfoldable pub up_files : Text → List Entry → List Text
up_files dir [] = []
up_files dir (e ∷ es) =
    let rest = up_files dir es in if is_up e then join dir e.name ∷ rest else rest

-- `FindUpMigrations`, by what `os.ReadDir` returns.
abbrev pub find_up_migrations : Text → Option (List Entry) → Option (List Text)
find_up_migrations dir none = none
find_up_migrations dir (some entries) = some (sorted (up_files dir entries))

-- `filepath.Base` of a path that names a file.
unfoldable pub base : Text → Text
base [] = []
base (c ∷ s) = let rest = base s in if contains (c ∷ s) (47 ∷ []) then rest else c ∷ s

-- The calls of database/sql that the run makes, each with the state after it or its failure: the tracker
-- table, a version looked up in it, the transaction's begin, the file's statements, the version's row,
-- and the commit. Inside a transaction the state is the one that the commit makes that of the database;
-- a commit takes the state from before as well, and gives the state after it and whether it returned
-- without an error, since one that fails may have taken effect or not.
pub record Database (S : Type 0) : Type 0 where
  pub create_table : S → Option S
  pub has_version : Text → S → Option Bool
  pub begin : S → Option S
  pub execute : Text → S → Option S
  pub insert : Text → S → Option S
  pub commit : S → S → S × Bool

pub data MigrationError : Type 0 where
  initialize_failed : MigrationError
  list_failed : MigrationError
  query_failed : Text → MigrationError
  read_failed : Text → MigrationError
  begin_failed : Text → MigrationError
  execute_failed : Text → MigrationError
  record_failed : Text → MigrationError
  commit_failed : Text → MigrationError

module _ {S : Type 0} where
  abbrev pub committed : Text → S × Bool → S × Option MigrationError
  committed version (t, false) = (t, some (commit_failed version))
  committed version (t, true) = (t, none)

  -- A rollback leaves the state from before the transaction.
  abbrev pub recorded : Database S → S → Text → Option S → S × Option MigrationError
  recorded db s version none = (s, some (record_failed version))
  recorded db s version (some t) = committed version (db.commit s t)

  abbrev pub executed : Database S → S → Text → Option S → S × Option MigrationError
  executed db s version none = (s, some (execute_failed version))
  executed db s version (some t) = recorded db s version (db.insert version t)

  abbrev pub begun : Database S → S → Text → Text → Option S → S × Option MigrationError
  begun db s version content none = (s, some (begin_failed version))
  begun db s version content (some t) = executed db s version (db.execute content t)

  abbrev pub read : Database S → S → Text → Option Text → S × Option MigrationError
  read db s file none = (s, some (read_failed file))
  read db s file (some content) = begun db s (base file) content (db.begin s)

  abbrev pub queried : Database S → S → Text → Option Text → Option Bool → S × Option MigrationError
  queried db s file content none = (s, some (query_failed (base file)))
  queried db s file content (some true) = (s, none)
  queried db s file content (some false) = read db s file content

  -- One turn of the loop.
  unfoldable pub migrate : Database S → (Text → Option Text) → Text → S → S × Option MigrationError
  migrate db read_file file s = queried db s file (read_file file) (db.has_version (base file) s)

  abbrev pub then_rest :
      S × Option MigrationError → (S → S × Option MigrationError) → S × Option MigrationError
  then_rest (s, some e) rest = (s, some e)
  then_rest (s, none) rest = rest s

  -- The driver may behave otherwise in each turn.
  unfoldable pub migrate_all :
      (ℕ → Database S) → (Text → Option Text) → List Text → ℕ → S → S × Option MigrationError
  migrate_all db read_file [] i s = (s, none)
  migrate_all db read_file (f ∷ fs) i s =
      then_rest (migrate (db i) read_file f s) (migrate_all db read_file fs (suc i))

  abbrev pub found :
      (ℕ → Database S) → (Text → Option Text) → Option (List Text) → S → S × Option MigrationError
  found db read_file none s = (s, some list_failed)
  found db read_file (some files) s = migrate_all db read_file files 1 s

  abbrev pub initialized :
      (ℕ → Database S)
      → (Text → Option Text)
      → Option (List Text)
      → S
      → Option S
      → S × Option MigrationError
  initialized db read_file files s none = (s, some initialize_failed)
  initialized db read_file files s (some t) = found db read_file files t

  -- `RunMigrations`
  unfoldable pub run_migrations :
      (ℕ → Database S)
      → (Text → Option Text)
      → Option (List Entry)
      → Text
      → S
      → S × Option MigrationError
  run_migrations db read_file entries dir s =
      initialized db read_file (find_up_migrations dir entries) s ((db 0).create_table s)
