-- ===== src/Migrator/Applying.antt =====
-- Which migrations a run of internal/store/migrator.go applies, and in which order.
use ai_proxy_centranity.Base.{
  All, subst, ◌≡◌, ◌⊎◌, ℕ, suc, Bool, true, false, Option, none, some, List, [], ◌∷◌, ◌++◌, map,
  if◌then◌else◌, refl, sym, ap, ◌∙◌, Bool-cases, inl, inr, arith,
}
use ai_proxy_centranity.Base.Text.{Text}
use ai_proxy_centranity.Migrator.Pending.{
  has, pending, record_all, chosen, passed_over, append_nil, append_is_nil, pending-record_all,
}
use ai_proxy_centranity.Migrator.{
  Entry, Database, MigrationError, find_up_migrations, base, committed, recorded, executed, begun,
  read, queried, migrate, then_rest, migrate_all, initialized, run_migrations,
}

-- What the run relies on in the driver, where `applied` are the rows of the tracker table, which nobody
-- else changes meanwhile: its own statements do what they say, and a commit that fails has either taken
-- effect or not.
pub record IsTransactional (S : Type 0) (applied : S → List Text) (db : Database S) : Type 0 where
  pub creates : (s t : S) → db.create_table s ≡ some t → applied t ≡ applied s
  pub knows : (v : Text) (s : S) (b : Bool) → db.has_version v s ≡ some b → b ≡ has v (applied s)
  pub begins : (s t : S) → db.begin s ≡ some t → applied t ≡ applied s
  pub inserts : (v : Text) (s t : S) → db.insert v s ≡ some t → applied t ≡ v ∷ applied s
  pub commits : (s t u : S) → db.commit s t ≡ (u, true) → applied u ≡ applied t
  pub fails :
      (s t u : S) → db.commit s t ≡ (u, false) → (applied u ≡ applied s) ⊎ (applied u ≡ applied t)

-- The statements in these files leave the rows of the tracker table alone.
abbrev pub Spares :
    {S : Type 0} → (S → List Text) → (ℕ → Database S) → (Text → Option Text) → List Text → Type 0
Spares {S} applied db read_file = All (λ file.
    (i : ℕ) (content : Text) (s t : S)
    → read_file file ≡ some content
    → (db i).execute content s ≡ some t
    → applied t ≡ applied s)

module _ {S : Type 0} (applied : S → List Text) where
  -- The versions that a run has recorded are the first ones of those that were pending, in their order,
  -- and all of them if it returns no error.
  abbrev pub Progress : List Text → List Text → S × Option MigrationError → Type 0
  Progress before versions r =
      (done : List Text) × (left : List Text) × (pending before versions ≡ done ++ left)
      × (applied (r.0) ≡ record_all done before)
      × (r.1 ≡ none → left ≡ [])

  abbrev Turned : List Text → Text → S × Option MigrationError → Type 0
  Turned before v r =
      ((e : MigrationError) × (r.1 ≡ some e)
        × ((applied (r.0) ≡ before) ⊎ ((has v before ≡ false) × (applied (r.0) ≡ v ∷ before))))
      ⊎ ((r.1 ≡ none) × (applied (r.0) ≡ (if has v before then before else v ∷ before)))

  then_rest-Progress :
      (before : List Text) (v : Text) (vs : List Text) (r : S × Option MigrationError)
      (rest : S → S × Option MigrationError)
      → Turned before v r
      → ((s : S) → Progress (applied s) vs (rest s))
      → Progress before (v ∷ vs) (then_rest r rest)
  unfolding pending record_all
  then_rest-Progress before v vs (s, some e) rest (inl (e', p, inl q)) k =
      ([], pending before (v ∷ vs), refl, q, λ n. ground (arith, n))
  then_rest-Progress before v vs (s, some e) rest (inl (e', p, inr (h, q))) k =
      rw (h) (v ∷ [], pending (v ∷ before) vs, refl, q, λ n. ground (arith, n))
  then_rest-Progress before v vs (s, some e) rest (inr (p, q)) k = ground (arith, p)
  then_rest-Progress before v vs (s, none) rest (inl (e', p, q)) k = ground (arith, p)
  then_rest-Progress before v vs (s, none) rest (inr (p, q)) k =
      let (done, left, a, b, c) = k s in
      elim (Bool-cases (has v before)) [
        | inl y ↦
            let e = q ∙ chosen (has v before) before (v ∷ before) y in
            rw (y) (done, left, ap (λ x. pending x vs) (sym e) ∙ a, b ∙ ap (record_all done) e, c)
        | inr n ↦
            let e = q ∙ passed_over (has v before) before (v ∷ before) n in
            rw (n) (
              v ∷ done,
              left,
              ap (λ x. v ∷ pending x vs) (sym e) ∙ ap (λ x. v ∷ x) a,
              b ∙ ap (record_all done) e,
              c,
            )
      ]

  -- Two runs, the first one without an error.
  again :
      (before versions : List Text) (r r' : S × Option MigrationError)
      → Progress before versions r
      → r.1 ≡ none
      → Progress (applied (r.0)) versions r'
      → applied (r'.0) ≡ applied (r.0)
  unfolding record_all
  again before versions r r' (done, left, a, b, c) n (done', left', a', b', c') =
      let all = a ∙ ap (λ x. done ++ x) (c n) ∙ append_nil done in
      let e = b ∙ ap (λ x. record_all x before) (sym all) in
      let nothing = sym a' ∙ ap (λ x. pending x versions) e ∙ pending-record_all versions before in
      b' ∙ ap (λ x. record_all x (applied (r.0))) (append_is_nil done' left' nothing)

  module _ (db : Database S) (laws : IsTransactional S applied db) (read_file : Text → Option Text)
      (file : Text) (s : S)
      (spares : (content : Text) (t u : S)
        → read_file file ≡ some content
        → db.execute content t ≡ some u
        → applied u ≡ applied t) where
    abbrev IsTurn : S × Option MigrationError → Type 0
    IsTurn = Turned (applied s) (base file)

    committed-IsTurn :
        (o : S × Bool)
        → has (base file) (applied s) ≡ false
        → ((u : S) → o ≡ (u, true) → applied u ≡ base file ∷ applied s)
        → ((u : S) → o ≡ (u, false) → (applied u ≡ applied s) ⊎ (applied u ≡ base file ∷ applied s))
        → IsTurn (committed (base file) o)
    committed-IsTurn (u, true) n k l = inr (refl, rw (n) (k u refl))
    committed-IsTurn (u, false) n k l = elim (l u refl) [
      | inl a ↦ inl (_, refl, inl a)
      | inr b ↦ inl (_, refl, inr (n, b))
    ]

    recorded-IsTurn :
        (o : Option S)
        → has (base file) (applied s) ≡ false
        → ((t : S) → o ≡ some t → applied t ≡ base file ∷ applied s)
        → IsTurn (recorded db s (base file) o)
    recorded-IsTurn none n k = inl (_, refl, inl refl)
    recorded-IsTurn (some t) n k =
        committed-IsTurn (db.commit s t) n (λ u e. laws.commits s t u e ∙ k t refl)
          (λ u e. elim (laws.fails s t u e) [ inl a ↦ inl a | inr b ↦ inr (b ∙ k t refl) ])

    executed-IsTurn :
        (o : Option S)
        → has (base file) (applied s) ≡ false
        → ((t : S) → o ≡ some t → applied t ≡ applied s)
        → IsTurn (executed db s (base file) o)
    executed-IsTurn none n k = inl (_, refl, inl refl)
    executed-IsTurn (some t) n k =
        recorded-IsTurn (db.insert (base file) t) n
          (λ u e. laws.inserts (base file) t u e ∙ ap (λ x. base file ∷ x) (k t refl))

    begun-IsTurn :
        (content : Text) (o : Option S)
        → read_file file ≡ some content
        → has (base file) (applied s) ≡ false
        → ((t : S) → o ≡ some t → applied t ≡ applied s)
        → IsTurn (begun db s (base file) content o)
    begun-IsTurn content none r n k = inl (_, refl, inl refl)
    begun-IsTurn content (some t) r n k =
        executed-IsTurn (db.execute content t) n (λ u e. spares content t u r e ∙ k t refl)

    read-IsTurn :
        (o : Option Text)
        → read_file file ≡ o
        → has (base file) (applied s) ≡ false
        → IsTurn (read db s file o)
    read-IsTurn none r n = inl (_, refl, inl refl)
    read-IsTurn (some content) r n = begun-IsTurn content (db.begin s) r n (laws.begins s)

    queried-IsTurn :
        (content : Option Text) (q : Option Bool)
        → read_file file ≡ content
        → ((b : Bool) → q ≡ some b → b ≡ has (base file) (applied s))
        → IsTurn (queried db s file content q)
    queried-IsTurn content none r k = inl (_, refl, inl refl)
    queried-IsTurn content (some true) r k = inr (refl, rw (sym (k true refl)) refl)
    queried-IsTurn content (some false) r k = read-IsTurn content r (sym (k false refl))

    migrate-IsTurn : IsTurn (migrate db read_file file s)
    unfolding migrate
    migrate-IsTurn =
        queried-IsTurn (read_file file) (db.has_version (base file) s) refl
          (laws.knows (base file) s)

  module _ (db : ℕ → Database S) (laws : (i : ℕ) → IsTransactional S applied (db i))
      (read_file : Text → Option Text) where
    migrate_all_lem :
        (files : List Text) (i : ℕ) (s : S)
        → Spares applied db read_file files
        → Progress (applied s) (map base files) (migrate_all db read_file files i s)
    unfolding migrate_all pending record_all
    migrate_all_lem [] i s h = ([], [], refl, refl, λ n. refl)
    migrate_all_lem (f ∷ fs) i s h =
        then_rest-Progress (applied s) (base f) (map base fs) (migrate (db i) read_file f s)
          (migrate_all db read_file fs (suc i))
          (migrate-IsTurn (db i) (laws i) read_file f s (h.0 i))
          (λ t. migrate_all_lem fs (suc i) t (h.1))

    from_initialized :
        (files : List Text) (s : S) (o : Option S)
        → Spares applied db read_file files
        → ((t : S) → o ≡ some t → applied t ≡ applied s)
        → Progress (applied s) (map base files) (initialized db read_file (some files) s o)
    unfolding record_all
    from_initialized files s none h k =
        ([], pending (applied s) (map base files), refl, refl, λ n. ground (arith, n))
    from_initialized files s (some t) h k =
        subst (λ x. Progress x (map base files) (migrate_all db read_file files 1 t)) (k t refl)
          (migrate_all_lem files 1 t h)

    -- With a driver that does what its calls say, and files that leave the tracker table alone, a run leaves recorded, besides what was
    -- recorded before, the first ones of the pending versions, in the order of the sorted files, whatever
    -- call fails and wherever it stops, a commit of which it is unknown whether it took effect included;
    -- and all of them if it returns no error.
    pub run_migrations-Progress :
        (entries : Option (List Entry)) (dir : Text) (s : S) (files : List Text)
        → find_up_migrations dir entries ≡ some files
        → Spares applied db read_file files
        → Progress (applied s) (map base files) (run_migrations db read_file entries dir s)
    unfolding run_migrations
    run_migrations-Progress entries dir s files e h =
        rw (e) (from_initialized files s ((db 0).create_table s) h ((laws 0).creates s))

    -- With such a driver and such files, after a run that returns no error another one finds nothing to apply: whether it fails or not, it
    -- leaves the recorded versions as they are.
    pub run_migrations-again :
        (entries : Option (List Entry)) (dir : Text) (s : S) (files : List Text)
        → find_up_migrations dir entries ≡ some files
        → Spares applied db read_file files
        → (run_migrations db read_file entries dir s).1 ≡ none
        → applied (
            (run_migrations db read_file entries dir
              ((run_migrations db read_file entries dir s).0)).0)
          ≡ applied ((run_migrations db read_file entries dir s).0)
    run_migrations-again entries dir s files e h n =
        again (applied s) (map base files) (run_migrations db read_file entries dir s)
          (run_migrations db read_file entries dir ((run_migrations db read_file entries dir s).0))
          (run_migrations-Progress entries dir s files e h) n
          (run_migrations-Progress entries dir _ files e h)
