-- ===== src/Migrator/Examples.antt =====
-- Concrete runs of the theorems on internal/store/migrator.go.
use ai_proxy_centranity.Base.{
  sym, ap, true, Bool, inr, inl, Bool-cases, ◌≡◌, refl, ℕ, false, Option, none, some, List, [], ◌∷◌,
  if◌then◌else◌, map, computing, arith,
}
use ai_proxy_centranity.Base.Text.{Text, text, precedes, ◌==◌}
use ai_proxy_centranity.Migrator.{
  Entry, Database, find_up_migrations, base, sorted, insert_sorted, up_files, migrate, migrate_all,
  run_migrations,
}
use ai_proxy_centranity.Migrator.Pending.{has}
use ai_proxy_centranity.Migrator.Applying.{
  Spares, IsTransactional, Progress, run_migrations-Progress, run_migrations-again,
}

-- The state is the rows of the tracker table; statements that read "bad" fail.
abbrev driver : ℕ → Database (List Text)
driver i = record {
  create_table = some;
  has_version = λ v s. some (has v s);
  begin = some;
  execute = λ c s. if c == text "bad" then none else some s;
  insert = λ v s. some (v ∷ s);
  commit = λ s t. (t, true);
}

abbrev rows : List Text → List Text
rows s = s

same : (s t : List Text) → some s ≡ some t → t ≡ s
same s t e = ground (arith, e)

abbrev pair : List Text → Bool → List Text × Bool
pair s b = (s, b)

same_pair : (s t : List Text) (b c : Bool) → pair s b ≡ pair t c → t ≡ s
same_pair s t b c e = ap (λ p. p.0) (sym e)

executed_same : (i : ℕ) (c : Text) (s t : List Text) → (driver i).execute c s ≡ some t → t ≡ s
executed_same i c s t e = elim (Bool-cases (c == text "bad")) [
  | inl y ↦ ground (arith, e, y)
  | inr n ↦ ground (arith, e, n)
]

laws : (i : ℕ) → IsTransactional (List Text) rows (driver i)
laws i = record {
  creates = same;
  knows = λ v s b e. ground (arith, e);
  begins = same;
  inserts = λ v s t e. ground (arith, e);
  commits = λ s t u. same_pair t u true true;
  fails = λ s t u e. inr (same_pair t u true false e);
}

abbrev file : Text → Entry
file name = record { name = name; is_dir = false }

abbrev entries : Option (List Entry)
entries = some (
    file (text "2_keys.up.sql")
    ∷ file (text "1_schema.up.sql")
    ∷ file (text "1_schema.down.sql")
    ∷ [])

abbrev files : List Text
files = text "migrations/1_schema.up.sql" ∷ text "migrations/2_keys.up.sql" ∷ []

listed : find_up_migrations (text "migrations") entries ≡ some files
unfolding computing sorted insert_sorted up_files precedes
listed = refl

-- The second file is broken.
abbrev broken : Text → Option Text
broken path = if path == text "migrations/2_keys.up.sql" then some (text "bad") else some []

abbrev sound : Text → Option Text
sound path = some []

spared : (read_file : Text → Option Text) → Spares rows driver read_file files
spared read_file = (λ i c s t e. executed_same i c s t, (λ i c s t e. executed_same i c s t, tt))

finished : (run_migrations driver sound entries (text "migrations") []).1 ≡ none
unfolding computing sorted insert_sorted up_files precedes run_migrations migrate_all migrate has
    base
finished = refl

run_migrations-Progress_example :
    Progress rows [] (map base files) (run_migrations driver broken entries (text "migrations") [])
run_migrations-Progress_example =
    run_migrations-Progress rows driver laws broken entries (text "migrations") [] files listed
      (spared broken)

run_migrations-again_example :
    (run_migrations driver sound entries
      (text "migrations")
      ((run_migrations driver sound entries (text "migrations") []).0)).0
    ≡ (run_migrations driver sound entries (text "migrations") []).0
run_migrations-again_example =
    run_migrations-again rows driver laws sound entries (text "migrations") [] files listed
      (spared sound) finished
