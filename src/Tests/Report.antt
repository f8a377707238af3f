-- ===== src/Tests/Report.antt =====
-- Errors at concrete values.
use pxc_anonymizer.Prelude.{◌≡◌, ◌≢◌, refl, some}
use pxc_anonymizer.Errors.{Err, mysql, uncertain, joined, is_uncertain, as_failure, as_mysql}
use pxc_anonymizer.Report.{classify, exit_code, report_of}
use pxc_anonymizer.Report.Laws.{exit_code-uncertain, redact, classify-redact}

-- A step that a lost connection interrupts.
abbrev interrupted : Err
interrupted = joined uncertain (mysql 2013 "lost connection; password=hunter2")

exit_code-uncertain_example : exit_code (report_of (some interrupted)) ≢ 1
unfolding is_uncertain as_failure
exit_code-uncertain_example = exit_code-uncertain interrupted refl (λ m e. cc)

interrupted_code : exit_code (report_of (some interrupted)) ≡ 10
unfolding exit_code report_of is_uncertain as_failure as_mysql
interrupted_code = refl

classify-redact_example : classify (joined uncertain (mysql 2013 "")) ≡ classify interrupted
unfolding redact
classify-redact_example = classify-redact interrupted
