-- ===== src/PlanWindow/Tests.antt =====
-- Some output of terraform.
use wolkvorm.Base.{◌++◌, List, some, false, All, codes, ◌≡◌, refl}
use wolkvorm.Text.{includes, starts_with, is_space, trim_start}
use wolkvorm.Text.Number.{show_number}
use wolkvorm.Text.Pattern.{match_first}
use wolkvorm.PlanWindow.{
  Piece, parse_terraform_line, colorized_logs, plan_summary, marked_line, has_sign,
}
use wolkvorm.PlanWindow.Completion.{completion_status, status_of, other_status, error}
use wolkvorm.PlanWindow.Lines.{shown_text, IsLine, colorized_logs-IsLine}
use wolkvorm.PlanWindow.Summary.{plan_line, planned, plan_summary-plan_line}
use wolkvorm.PlanWindow.Finished.{apply_line, applied, completion_status-apply_line}

replaced :
    parse_terraform_line (codes "  # aws_instance.a must be replaced")
    ≡ some (marked_line "#f59e0b" "~")
unfolding parse_terraform_line has_sign trim_start is_space includes starts_with
replaced = refl

added : parse_terraform_line (codes "  + ami") ≡ some (marked_line "#22c55e" "+")
unfolding parse_terraform_line has_sign trim_start is_space includes starts_with
added = refl

failed_run :
    completion_status false (codes "Plan: 1\nerror: \nError: no\nx")
    ≡ some (record { kind = error; title = codes "Operation Failed"; detail = codes "no" })
unfolding completion_status status_of other_status match_first includes starts_with is_space
failed_run = refl

plan_summary-plan_line_example :
    plan_summary (codes "Terraform will act.\n" ++ plan_line 2 0 13 (codes ".\n"))
    ≡ some (planned 2 0 13)
unfolding includes starts_with
plan_summary-plan_line_example =
    plan_summary-plan_line (codes "Terraform will act.\n") 2 0 13 (codes ".\n") refl

completion_status-apply_line_example :
    completion_status false (codes "Plan: applied\n" ++ apply_line 2 0 13 (codes ".\n"))
    ≡ some (applied (codes "2") (codes "0") (codes "13"))
unfolding includes starts_with show_number
completion_status-apply_line_example =
    completion_status-apply_line false (codes "Plan: applied\n") 2 0 13 (codes ".\n") refl

colorized_logs-IsLine_example :
    (ps : List Piece) × (colorized_logs (codes "a\nb") ≡ some ps)
    × (shown_text ps ≡ codes "a\nb\n")
    × All IsLine ps
colorized_logs-IsLine_example = colorized_logs-IsLine b'a' (codes "\nb")
