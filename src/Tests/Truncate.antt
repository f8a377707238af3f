-- ===== src/Tests/Truncate.antt =====
-- A truncation on a toy connection: the state says whether its checks are on and whether it is pooled;
-- every statement succeeds but the one that switches the checks on.
use pxc_anonymizer.Prelude.{
  String, ◌≡◌, refl, ◌⊎◌, Bool, true, false, none, [], ◌==◌, text_eq, if◌then◌else◌,
}
use pxc_anonymizer.Errors.{Result, plain, ok, err}
use pxc_anonymizer.Sql.{Server}
use pxc_anonymizer.SqlStep.Truncate.{truncate, IsSession, checks_off, checks_on, truncate_restores}

abbrev Connection : Type 0
Connection = Bool × Bool

abbrev execute_toy : Connection → String → Result (Unit {0}) × Connection
execute_toy c statement =
    if statement == checks_off
    then (ok tt, (false, c.1))
    else if statement == checks_on
    then (err (plain "connection lost"), c)
    else (ok tt, c)

abbrev toy : Server Connection
toy = record {
  begin_tx = λ c. (ok tt, c);
  query = λ c s args. (ok [], c);
  query_progress = λ c s args. (ok none, c);
  prepare = λ c s. (ok tt, c);
  exec = λ c s args. execute_toy c s;
  commit = λ c. (ok tt, c);
  rollback = λ c. c;
}

abbrev thrown_away : Connection → Connection
thrown_away c = (c.0, false)

toy-IsSession : IsSession toy thrown_away (λ c. c.0) (λ c. c.1)
toy-IsSession = record {
  off_fails = λ c c' e h. absurd (cc);
  on_succeeds = λ c c' h. absurd (cc);
  discarded = λ c. refl;
}

truncate_restores_example :
    ((truncate toy thrown_away "shop" "logs" false (true, true)).1.0 ≡ true)
    ⊎ ((truncate toy thrown_away "shop" "logs" false (true, true)).1.1 ≡ false)
truncate_restores_example = truncate_restores toy-IsSession "shop" "logs" false (true, true) refl
