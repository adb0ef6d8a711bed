-- ===== src/Tests/Diffs.antt =====
-- Differences of two versions of a payload.
use platform_kit.Common.{true, none, some, [], ◌∷◌, ◌≡◌, ◌↔◌, refl, Str, lit, str_eq, Option, itoa}
use platform_kit.Common.Json.{Json, null, bool, str, arr, obj, cons, nil, field, end}
use platform_kit.Common.Sort.{IsSorted}
use platform_kit.Timetravel.Recorder.{EntitySnapshot}
use platform_kit.Timetravel.Diff.{FieldDiff, diff_values, diff_payloads}
use platform_kit.Timetravel.Diff.Marshal.{Printer, json_equal, marshal}
use platform_kit.Timetravel.Diff.Laws.{diff_payloads_iff}
use mathlib.Core.List.{Perm, List}

abbrev printer : Printer
printer = record { number = λ x. itoa x.magnitude; quoted = λ s. s }

abbrev before : Json
before = obj (
    field (lit "status") (str (lit "draft"))
      (field (lit "tags") (arr (cons (str (lit "a")) nil)) (field (lit "owner") null end)))

abbrev after : Json
after = obj (
    field (lit "tags") (arr (cons (str (lit "a")) (cons (bool true) nil)))
      (field (lit "status") (str (lit "done")) (field (lit "title") (str (lit "T")) end)))

abbrev paths : List FieldDiff → List Str
paths [] = []
paths (d ∷ ds) = d.path ∷ paths ds

diffs :
    paths (diff_payloads printer before after)
    ≡ lit "owner" ∷ lit "status" ∷ lit "tags[1]" ∷ lit "title" ∷ []
unfolding diff_payloads marshal str_eq itoa
diffs = refl

diff_payloads_iff_example :
    ((diff_payloads printer before after ≡ []) ↔ (json_equal printer before after ≡ true))
    × Perm (diff_payloads printer before after) (diff_values printer [] before after)
    × IsSorted (λ d. d.path) (diff_payloads printer before after)
unfolding str_eq
diff_payloads_iff_example =
    diff_payloads_iff printer before after
      (((refl, (refl, tt)), ((refl, tt), (tt, tt))), (tt, ((tt, tt), (tt, tt))))
      (((refl, (refl, tt)), ((refl, tt), (tt, tt))), ((tt, (tt, tt)), (tt, (tt, tt))))

abbrev version : EntitySnapshot
version = record {
  id = lit "a";
  kind = lit "spec";
  entity_id = lit "s1";
  payload = lit "null";
  valid_from = 3;
  valid_to = none;
  writer_service = lit "work-service";
  changed_by = [];
  change_reason = lit "system";
  created_at = 3;
}

abbrev parse : Str → Option Json
parse s = some before
