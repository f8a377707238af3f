-- ===== src/Report/Laws.antt =====
-- What the classes and messages of `Classify` promise.
use pxc_anonymizer.Prelude.{String, ◌≡◌, refl, ◌≢◌, ℕ, true, Option, none, some, arith}
use pxc_anonymizer.Errors.{
  transient, Err, failure, mysql, uncertain, joined, wrapped, plain, as_failure, as_mysql,
  is_uncertain, Class,
}
use pxc_anonymizer.Report.{classified, classify, exit_code, report_of}

classified-uncertain :
    (f : Option (Class × String)) (n : Option ℕ)
    → ((m : String) → f ≢ some (transient, m))
    → (classified f n true).0 ≢ transient
unfolding classified
classified-uncertain (some (c, m)) n h = λ e. h m (rw e)
classified-uncertain none (some n) h = ground arith
classified-uncertain none none h = ground arith

exit_code-report_of : (e : Err) → (classify e).0 ≢ transient → exit_code (report_of (some e)) ≢ 1
unfolding exit_code report_of
exit_code-report_of e h = ground arith

-- Exit code 1, which asks for another attempt, never stands for an error in which an uncertain
-- step outcome takes part, unless a `Failure` of class transient is what is classified.
pub exit_code-uncertain :
    (e : Err)
    → is_uncertain e ≡ true
    → ((m : String) → as_failure e ≢ some (transient, m))
    → exit_code (report_of (some e)) ≢ 1
unfolding classify
exit_code-uncertain e u h =
    exit_code-report_of e (rw u (classified-uncertain (as_failure e) (as_mysql e) h))

-- The error with every text in it that may hold row values, SQL or credentials blanked out; the
-- messages of failures, which the code writes itself, stay.
unfoldable pub redact : Err → Err
redact (failure c m) = failure c m
redact (mysql n m) = mysql n ""
redact uncertain = uncertain
redact (joined a b) = joined (redact a) (redact b)
redact (wrapped m e) = wrapped "" (redact e)
redact (plain m) = plain ""

as_failure-redact : (e : Err) → as_failure (redact e) ≡ as_failure e
unfolding redact as_failure
as_failure-redact (failure c m) = refl
as_failure-redact (mysql n m) = refl
as_failure-redact uncertain = refl
as_failure-redact (joined a b) = rw (as_failure-redact a, as_failure-redact b)
as_failure-redact (wrapped m e) = as_failure-redact e
as_failure-redact (plain m) = refl

as_mysql-redact : (e : Err) → as_mysql (redact e) ≡ as_mysql e
unfolding redact as_mysql
as_mysql-redact (failure c m) = refl
as_mysql-redact (mysql n m) = refl
as_mysql-redact uncertain = refl
as_mysql-redact (joined a b) = rw (as_mysql-redact a, as_mysql-redact b)
as_mysql-redact (wrapped m e) = as_mysql-redact e
as_mysql-redact (plain m) = refl

is_uncertain-redact : (e : Err) → is_uncertain (redact e) ≡ is_uncertain e
unfolding redact is_uncertain
is_uncertain-redact (failure c m) = refl
is_uncertain-redact (mysql n m) = refl
is_uncertain-redact uncertain = refl
is_uncertain-redact (joined a b) = rw (is_uncertain-redact a, is_uncertain-redact b)
is_uncertain-redact (wrapped m e) = is_uncertain-redact e
is_uncertain-redact (plain m) = refl

-- Nothing of the text of a database, driver or wrapping error reaches the class or the message
-- that `Classify` publishes: blanking those texts changes neither.
pub classify-redact : (e : Err) → classify (redact e) ≡ classify e
unfolding classify
classify-redact e = rw (as_failure-redact e, as_mysql-redact e, is_uncertain-redact e)
