-- ===== src/Policy/Valid.antt =====
-- What an accepted policy holds.
use pxc_anonymizer.Prelude.{
  String, ◌≡◌, ◌≢◌, refl, true, false, ◌||◌, ◌&&◌, none, List, [], ◌∷◌, ◌++◌, ◌==◌, ◌/=◌, map,
  text_eq, nat_eq, contains, All, arith, beq_refl, Bool-cases, inl, inr, ◌⊎◌, if◌then◌else◌,
}
use pxc_anonymizer.Errors.{Result, ok, err, refuse_if}
use pxc_anonymizer.Strategy.Params.{Parsers, or_else}
use pxc_anonymizer.Strategy.Compile.{Defaults, Column, compile}
use pxc_anonymizer.Strategy.Ready.{refuse_if_ok}
use pxc_anonymizer.Policy.{
  Step, ColumnRule, TablePolicy, DatabasePolicy, Spec, Patterns, no_defaults, validate_steps,
  validate_refs, and_then, checked, validate_columns, validate_table, validate_tables,
  validate_database, validate_databases, with_steps, validate, is_nonempty,
}

-- Names that are not empty, differ from each other and are none of those seen.
abbrev pub IsFresh : List String → List String → Type 0
IsFresh seen [] = Unit
IsFresh seen (n ∷ ns) = (n ≢ "") × (contains seen n ≡ false) × IsFresh (n ∷ seen) ns

unfoldable pub IsDistinct : List String → Type 0
IsDistinct [] = Unit
IsDistinct (n ∷ ns) = (n ≢ "") × All (λ m. m ≢ n) ns × IsDistinct ns

IsFresh-differs :
    (seen names : List String) (n : String)
    → contains seen n ≡ true
    → IsFresh seen names
    → All (λ m. m ≢ n) names
unfolding contains
IsFresh-differs seen [] n h f = tt
IsFresh-differs seen (m ∷ names) n h f =
    (λ e. ground (arith, e), IsFresh-differs (m ∷ seen) names n (ground arith) f.2)

IsFresh-IsDistinct : (seen names : List String) → IsFresh seen names → IsDistinct names
unfolding IsDistinct contains
IsFresh-IsDistinct seen [] f = tt
IsFresh-IsDistinct seen (n ∷ names) f = (
  f.0,
  IsFresh-differs (n ∷ seen) names n (ground (arith, beq_refl n)) f.2,
  IsFresh-IsDistinct (n ∷ seen) names f.2,
)

not_empty : (s : String) → (s == "") ≡ false → s ≢ ""
not_empty s h e = ground (arith, beq_refl s)

and_then_ok : (r q : Result (Unit {0})) → and_then r q ≡ ok tt → (r ≡ ok tt) × (q ≡ ok tt)
and_then_ok (ok u) q e = (refl, e)
and_then_ok (err x) q e = absurd (cc)

checked_ok : {A : Type 0} (r : Result A) → checked r ≡ ok tt → (a : A) × (r ≡ ok a)
checked_ok (ok a) e = (a, refl)
checked_ok (err x) e = absurd (cc)

steps-IsFresh :
    (seen : List String) (steps : List Step) (out : List String)
    → validate_steps seen steps ≡ ok out
    → IsFresh seen (map (λ (s : Step). s.name) steps)
      × ((n : String)
          → contains out n ≡ true
          → (contains seen n || contains (map (λ (s : Step). s.name) steps) n) ≡ true)
unfolding validate_steps contains
steps-IsFresh seen [] out e = (tt, λ n h. ground arith)
steps-IsFresh seen (s ∷ steps) out e =
    let (named, e1) = refuse_if_ok _ _ _ out e in
    let (fresh, e2) = refuse_if_ok _ _ _ out e1 in
    let (_, e3) = refuse_if_ok _ _ _ out e2 in
    let (_, e4) = refuse_if_ok _ _ _ out e3 in
    let (_, e5) = refuse_if_ok _ _ _ out e4 in
    let (rest, members) = steps-IsFresh (s.name ∷ seen) steps out e5 in
    ((not_empty s.name named, fresh, rest), λ n h. ground (arith, members n h))

abbrev pub step_names : List Step → List String
step_names steps = map (λ (s : Step). s.name) steps

refs-defined :
    (steps refs : List String)
    → validate_refs steps refs ≡ ok tt
    → All (λ r. contains steps r ≡ true) refs
unfolding validate_refs
refs-defined steps [] e = tt
refs-defined steps (r ∷ refs) e =
    let (known, rest) = refuse_if_ok _ _ _ tt e in (ground arith, refs-defined steps refs rest)

module _ (P : Parsers) (R : Patterns) (d : Defaults) where
  abbrev pub Compiles : ColumnRule → Type 0
  Compiles c = (column : Column) × (compile P c.rule d none ≡ ok column)

  -- A table to truncate has no columns; any other has some, all named apart, that all compile.
  unfoldable pub IsValidTable : TablePolicy → Type 0
  IsValidTable t =
      ((t.action ≡ "Truncate") × (t.columns ≡ []))
      ⊎ ((t.columns ≢ [])
          × IsDistinct (map (λ (c : ColumnRule). c.name) t.columns)
          × All Compiles t.columns)

  -- The tables are named apart and valid, and each reference names one of the steps.
  unfoldable pub IsValidDatabase : List Step → DatabasePolicy → Type 0
  IsValidDatabase steps b =
      IsDistinct (map (λ (t : TablePolicy). t.name) b.tables)
      × All IsValidTable b.tables
      × All (λ r. contains (step_names steps) r ≡ true) (b.pre ++ b.post)

  columns-IsFresh :
      (seen : List String) (columns : List ColumnRule)
      → validate_columns P R d seen columns ≡ ok tt
      → IsFresh seen (map (λ (c : ColumnRule). c.name) columns) × All Compiles columns
  unfolding validate_columns
  columns-IsFresh seen [] e = (tt, tt)
  columns-IsFresh seen (c ∷ columns) e =
      let (named, e1) = refuse_if_ok _ _ _ tt e in
      let (fresh, e2) = refuse_if_ok _ _ _ tt e1 in
      let (_, e3) = refuse_if_ok _ _ _ tt e2 in
      let (made, e4) = and_then_ok _ _ e3 in
      let rest = columns-IsFresh (c.name ∷ seen) columns e4 in
      ((not_empty c.name named, fresh, rest.0), (checked_ok _ made, rest.1))

  no_columns : (columns : List ColumnRule) → is_nonempty P R columns ≡ false → columns ≡ []
  no_columns [] h = refl
  no_columns (c ∷ columns) h = absurd (cc)

  some_columns :
      (columns : List ColumnRule)
      → (if is_nonempty P R columns then false else true) ≡ false
      → columns ≢ []
  some_columns [] h = absurd (cc)
  some_columns (c ∷ columns) h = λ e. cc

  table-IsValidTable : (t : TablePolicy) → validate_table P R d t ≡ ok tt → IsValidTable t
  unfolding validate_table IsValidTable
  table-IsValidTable t e =
      let (_, e1) = refuse_if_ok _ _ _ tt e in
      let (_, e2) = refuse_if_ok _ _ _ tt e1 in by_action (Bool-cases (t.action == "Truncate")) e2
    where
      by_action :
          ((t.action == "Truncate") ≡ true) ⊎ ((t.action == "Truncate") ≡ false)
          → (if t.action == "Truncate"
              then refuse_if
                  (is_nonempty P R t.columns)
                  "truncate action takes no column rules"
                  (ok tt)
              else refuse_if
                  ((t.action /= "") && (t.action /= "Anonymize"))
                  "table action must be Anonymize or Truncate"
                  (refuse_if
                    (if is_nonempty P R t.columns then false else true)
                    "anonymize action requires column rules"
                    (validate_columns P R d [] t.columns)))
            ≡ ok tt
          → ((t.action ≡ "Truncate") × (t.columns ≡ []))
            ⊎ ((t.columns ≢ [])
                × IsDistinct (map (λ (c : ColumnRule). c.name) t.columns)
                × All Compiles t.columns)
      by_action (inl truncated) e = inl (
        (text_eq.same_iff t.action "Truncate").0 truncated,
        no_columns t.columns (refuse_if_ok _ _ _ tt (rw truncated at e)).0,
      )
      by_action (inr other) e =
          let (_, e1) = refuse_if_ok _ _ _ tt (rw other at e) in
          let (there, e2) = refuse_if_ok _ _ _ tt e1 in
          let (fresh, made) = columns-IsFresh [] t.columns e2 in
          inr (some_columns t.columns there, IsFresh-IsDistinct [] _ fresh, made)

  tables-IsFresh :
      (seen : List String) (tables : List TablePolicy)
      → validate_tables P R d seen tables ≡ ok tt
      → IsFresh seen (map (λ (t : TablePolicy). t.name) tables) × All IsValidTable tables
  unfolding validate_tables
  tables-IsFresh seen [] e = (tt, tt)
  tables-IsFresh seen (t ∷ tables) e =
      let (named, e1) = refuse_if_ok _ _ _ tt e in
      let (fresh, e2) = refuse_if_ok _ _ _ tt e1 in
      let (made, e3) = and_then_ok _ _ e2 in
      let rest = tables-IsFresh (t.name ∷ seen) tables e3 in
      ((not_empty t.name named, fresh, rest.0), (table-IsValidTable t made, rest.1))

  defined_among :
      (out refs : List String) (steps : List Step)
      → ((n : String) → contains out n ≡ true → contains (step_names steps) n ≡ true)
      → All (λ r. contains out r ≡ true) refs
      → All (λ r. contains (step_names steps) r ≡ true) refs
  defined_among out [] steps h a = tt
  defined_among out (r ∷ refs) steps h a = (h r a.0, defined_among out refs steps h a.1)

  databases-IsValidDatabase :
      (out : List String) (steps : List Step) (databases : List DatabasePolicy)
      → ((n : String) → contains out n ≡ true → contains (step_names steps) n ≡ true)
      → validate_databases P R d out databases ≡ ok tt
      → All (IsValidDatabase steps) databases
  unfolding validate_databases validate_database IsValidDatabase
  databases-IsValidDatabase out steps [] h e = tt
  databases-IsValidDatabase out steps (b ∷ databases) h e =
      let (one, rest) = and_then_ok _ _ e in
      let (_, e1) = refuse_if_ok _ _ _ tt one in
      let (_, e2) = refuse_if_ok _ _ _ tt e1 in
      let (refs, tables) = and_then_ok _ _ e2 in
      let (fresh, valid) = tables-IsFresh [] b.tables tables in
      (
        (
          IsFresh-IsDistinct [] _ fresh,
          valid,
          defined_among out (b.pre ++ b.post) steps h (refs-defined out (b.pre ++ b.post) refs),
        ),
        databases-IsValidDatabase out steps databases h rest,
      )

-- An accepted policy has its steps named apart and not empty, and every database of it is valid: its
-- tables are named apart, each of its references names a step of the policy, and each table is
-- either truncated and without columns or has columns, named apart, whose rules all compile.
pub validate-IsValidDatabase :
    (P : Parsers) (R : Patterns) (s : Spec)
    → validate P R s ≡ ok tt
    → IsDistinct (step_names s.steps)
      × All (IsValidDatabase P R (or_else no_defaults s.defaults) s.steps) s.databases
unfolding validate contains
validate-IsValidDatabase P R s e =
    let (_, e1) = refuse_if_ok _ _ _ tt e in
    let (_, e2) = refuse_if_ok _ _ _ tt e1 in
    let (_, e3) = refuse_if_ok _ _ _ tt e2 in
    let (_, e4) = refuse_if_ok _ _ _ tt e3 in by_steps (validate_steps [] s.steps) refl e4
  where
    by_steps :
        (r : Result (List String))
        → validate_steps [] s.steps ≡ r
        → with_steps P R (or_else no_defaults s.defaults) s.databases r ≡ ok tt
        → IsDistinct (step_names s.steps)
          × All (IsValidDatabase P R (or_else no_defaults s.defaults) s.steps) s.databases
    by_steps (err x) q e = absurd (cc)
    by_steps (ok out) q e =
        let (fresh, members) = steps-IsFresh [] s.steps out q in
        (
          IsFresh-IsDistinct [] _ fresh,
          databases-IsValidDatabase P R (or_else no_defaults s.defaults) out s.steps s.databases
              members e,
        )
