-- ===== src/Semdiff/Format.antt =====
-- `Format` and `curve`.
use promptnet.Prelude.{
  ◌+◌, ◌≡◌, ◌↔◌, refl, Bool, List, [], ◌∷◌, ◌++◌, Str, codes, if◌then◌else◌, map,
}
use promptnet.Prelude.Decimal.{decimal}
use promptnet.Prelude.Text.{join}
use promptnet.Semdiff.Analyze.{Class, structural, localized_tweak, minor_edit, Window, Report}
use promptnet.Semdiff.Changes.{Change}
use promptnet.Semdiff.Float.{Float}
use promptnet.Semdiff.Verdict.{HunkKind, inserts, deletes, replaces, kind}

unfoldable pub kind_text : HunkKind → Str
kind_text inserts = codes "insert"
kind_text deletes = codes "delete"
kind_text replaces = codes "replace"

unfoldable pub class_name : Class → Str
class_name structural = codes "structural"
class_name localized_tweak = codes "localized tweak"
class_name minor_edit = codes "minor edit"

-- `fixed` prints a float64 with the verb %.3f
module _ (fl : Float) (fixed : fl.Double → Str) where
  -- "±%d=%.3f"
  unfoldable pub window_text : Window fl → Str
  unfolding decimal
  window_text w = 0xc2 ∷ 0xb1 ∷ (decimal w.radius ++ (codes "=" ++ fixed w.delta))

  unfoldable pub curve_text : List (Window fl) → Bool → Str
  unfolding window_text join
  curve_text [] boundary = codes "(none)"
  curve_text (w ∷ ws) boundary =
      join (map window_text (w ∷ ws)) (codes " ")
      ++ (codes " (" ++ ((if boundary then codes "boundary" else codes "flat") ++ codes ")"))

  unfoldable pub range_text : Change → Str
  unfolding decimal kind_text kind
  range_text c =
      codes "change @ new lines "
      ++ (decimal (c.new_start + 1)
          ++ (codes "-"
              ++ (decimal c.new_end
                  ++ (codes " (old "
                      ++ (decimal (c.old_start + 1)
                          ++ (codes "-"
                              ++ (decimal c.old_end
                                  ++ (codes "): " ++ (kind_text (kind c) ++ codes "\n")))))))))

  unfoldable pub report_text : Report fl → Str
  unfolding range_text curve_text class_name
  report_text r =
      range_text r.change
      ++ (codes "  Signal 2 (point delta): "
          ++ (fixed r.signal2
              ++ (codes "\n  Signal 3 up:   "
                  ++ (curve_text r.up.curve r.up.stopped_at_boundary
                      ++ (codes "\n  Signal 3 down: "
                          ++ (curve_text r.down.curve r.down.stopped_at_boundary
                              ++ (codes "\n  => " ++ (class_name r.class ++ codes "\n"))))))))

  unfoldable pub reports_text : List (Report fl) → Str
  unfolding report_text
  reports_text [] = []
  reports_text (r ∷ rs) = report_text r ++ reports_text rs

  unfoldable pub format : List (Report fl) → Str
  unfolding reports_text
  format [] = codes "no changes\n"
  format (r ∷ rs) = reports_text (r ∷ rs)

  -- "no changes" is printed exactly if no hunk was reported
  pub format-none_iff : (rs : List (Report fl)) → (format rs ≡ codes "no changes\n") ↔ (rs ≡ [])
  unfolding format reports_text report_text range_text
  format-none_iff [] = ((λ e. refl), λ e. refl)
  format-none_iff (r ∷ rs) = ((λ e. absurd cc), λ e. absurd cc)
