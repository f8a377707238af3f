-- ===== src/Pager/Statements.antt =====
-- The SQL text and the arguments of a page (internal/runner/pager/pager.go).
use pxc_anonymizer.Prelude.{
  ℕ, zero, suc, String, ◌<>◌, ◌==◌, text_eq, nat_eq, List, [], ◌∷◌, ◌++◌, length, map,
  if◌then◌else◌,
}
use pxc_anonymizer.Prelude.Int.{ℤ}
use pxc_anonymizer.Sql.{Value, int64}

pub record Table : Type 0 where
  pub database : String
  pub name : String
  pub primary_key : List String
  pub columns : List String
  pub ignore_where : String
  pub page_size : ℤ

-- `strings.Join`.
unfoldable pub join : String → List String → String
join separator [] = ""
join separator (s ∷ []) = s
join separator (s ∷ t ∷ rest) = s <> (separator <> join separator (t ∷ rest))

unfoldable pub quoted : List String → String
unfolding join
quoted names = "`" <> (join "`,`" names <> "`")

-- `strings.Repeat("?,", count)` without the last comma.
unfoldable pub placeholders : ℕ → String
placeholders zero = ""
placeholders (suc zero) = "?"
placeholders (suc (suc n)) = "?," <> placeholders (suc n)

-- The predicates of `selectSQL`: the cursor's, if there is one, and the ignored rows', if any.
unfoldable pub predicates : Table → List Value → List String
unfolding quoted placeholders
predicates t cursor =
    let ignore = if t.ignore_where == "" then [] else ("NOT (" <> (t.ignore_where <> ")")) ∷ [] in
    if length cursor == 0
    then ignore
    else ("(" <> (quoted t.primary_key <> (") > (" <> (placeholders (length cursor) <> ")"))))
      ∷ ignore

abbrev pub where_clause : List String → String
where_clause [] = ""
where_clause (p ∷ ps) = " WHERE " <> join " AND " (p ∷ ps)

-- `selectSQL`, the text.
unfoldable pub select_sql : Table → List Value → String
unfolding predicates
select_sql t cursor =
    "SELECT "
    <> (quoted t.primary_key
        <> (","
            <> (quoted t.columns
                <> (" FROM "
                    <> (quoted (t.database ∷ [])
                        <> ("."
                            <> (quoted (t.name ∷ [])
                                <> (where_clause (predicates t cursor)
                                    <> (" ORDER BY "
                                        <> (quoted t.primary_key <> " LIMIT ?"))))))))))

-- `selectSQL`, the arguments.
unfoldable pub select_args : Table → List Value → List Value
select_args t cursor = cursor ++ (int64 t.page_size ∷ [])

abbrev pub assignment : String → String
assignment name = "`" <> (name <> "`=?")

-- `updateSQL`.
unfoldable pub update_sql : Table → String
unfolding join quoted placeholders
update_sql t =
    "UPDATE `"
    <> (t.database
        <> ("`.`"
            <> (t.name
                <> ("` SET "
                    <> (join "," (map assignment t.columns)
                        <> (" WHERE ("
                            <> (quoted t.primary_key
                                <> (") = (" <> (placeholders (length t.primary_key) <> ")")))))))))
