-- ===== src/Duty/Tests.antt =====
-- The gate of harness/duty_gate.py on a ruling that passes, and on the empty object.
use codex_loop_orchestra.Prelude.{◌≡◌, refl, inl, Bool, true, String, [], ◌∷◌, some, lookup}
use codex_loop_orchestra.Duty.Gate.{
  Ruling, text, items, number, key_error, persist_fix_hint, route_ruling, reasons, main,
}
use codex_loop_orchestra.Duty.Admissible.{IsAdmissible, passed-IsAdmissible}

abbrev any_line : String → Bool
any_line _ = true

abbrev ruling : Ruling
ruling =
    ("class", text "retryable")
    ∷ ("evidence", items (some "report.json:12" ∷ []))
    ∷ ("confidence", number 9000)
    ∷ []

passed-IsAdmissible_example : IsAdmissible any_line 7000 ruling (text "retryable") (number 9000)
unfolding main route_ruling reasons persist_fix_hint lookup
passed-IsAdmissible_example =
    passed-IsAdmissible any_line 7000 true (some ruling) [] (text "retryable") (number 9000)
      (inl refl)

empty_object : main any_line 7000 true (some []) [] ≡ ([], key_error)
unfolding main route_ruling reasons persist_fix_hint lookup
empty_object = refl
